-- ===== src/Exec/Once.antt =====
-- exec.go: the execs that the calls create.
use confort.Base.{
  ℕ, ◌≡◌, ◌≢◌, refl, Bool, true, not, ◌||◌, List, [], ◌∷◌, ◌++◌, String, ◌⊎◌, inl, inr, none, some,
  ◌==◌, string_eq, arith, Bool-cases, Option-cases, ap, sym, subst, ◌∙◌,
}
use confort.Exec.{
  ContainerExec, ExecAnswers, Executed, is_set, start_exec, wait_exec, then_wait, run_exec, output,
  combined_output,
}

pub data ExecCall : Type 0 where
  starts waits runs : ExecAnswers → ExecCall
  outputs combines : ℕ → ExecAnswers → ExecCall

unfoldable pub call_exec : ExecCall → ContainerExec → Executed
unfolding start_exec wait_exec run_exec output combined_output
call_exec (starts a) e = start_exec a e
call_exec (waits a) e = wait_exec a e
call_exec (runs a) e = run_exec a e
call_exec (outputs buf a) e = output buf a e
call_exec (combines buf a) e = combined_output buf a e

-- The ids that a sequence of calls creates.
unfoldable pub created_by : List ExecCall → ContainerExec → List String
unfolding call_exec
created_by [] e = []
created_by (c ∷ calls) e = (call_exec c e).created ++ created_by calls (call_exec c e).exec

-- Docker gives an id to what it creates.
abbrev pub GivesIds : ExecAnswers → Type 0
GivesIds a = (out err : Bool) → a.create out err ≢ inr ""

abbrev pub answers_of : ExecCall → ExecAnswers
answers_of (starts a) = a
answers_of (waits a) = a
answers_of (runs a) = a
answers_of (outputs buf a) = a
answers_of (combines buf a) = a

abbrev pub AllGiveIds : List ExecCall → Type 0
AllGiveIds [] = Unit
AllGiveIds (c ∷ calls) = GivesIds (answers_of c) × AllGiveIds calls

-- What a call creates, and the id afterwards.
abbrev pub Steps : ContainerExec → Executed → Type 0
Steps e r =
    ((r.created ≡ []) × (r.exec.exec_id ≡ e.exec_id))
    ⊎ ((e.exec_id ≡ "") × (r.created ≡ r.exec.exec_id ∷ []) × (r.exec.exec_id ≢ ""))

start-Steps : (a : ExecAnswers) (e : ContainerExec) → GivesIds a → Steps e (start_exec a e)
unfolding start_exec
start-Steps a e g = elim (Bool-cases (e.exec_id == "")) [
  | inr f ↦ inl (ground (arith, f), ground (arith, f))
  | inl f ↦ go f (a.create (is_set e.stdout || not (is_set e.stderr)) (is_set e.stderr)) refl
]
  where
    go :
        (e.exec_id == "") ≡ true
        → (r : String ⊎ String)
        → a.create (is_set e.stdout || not (is_set e.stderr)) (is_set e.stderr) ≡ r
        → Steps e (start_exec a e)
    go f (inl x) c = inl (ground (arith, f, c), ground (arith, f, c))
    go f (inr id) c = inr (
      ground (arith, f, string_eq.beq_iff e.exec_id ""),
      ground (arith, f, c),
      λ q. g (is_set e.stdout || not (is_set e.stderr)) (is_set e.stderr) (ground (arith, f, c, q)),
    )

wait-Steps :
    (a : ExecAnswers) (e : ContainerExec)
    → ((wait_exec a e).created ≡ []) × ((wait_exec a e).exec ≡ e)
unfolding wait_exec
wait-Steps a e = elim (Bool-cases (e.exec_id == "")) [
  | inl f ↦ ground (arith, f)
  | inr f ↦ elim (Option-cases a.attach_error) [
    | inl x ↦ ground (arith, f, x)
    | inr (y, x) ↦ ground (arith, f, x)
  ]
]

then_wait-Steps :
    (a : ExecAnswers) (e : ContainerExec) (r : Executed) → Steps e r → Steps e (then_wait a r)
then_wait-Steps a e r h = elim (Option-cases r.error) [
  | inr (x, f) ↦ rw f h
  | inl f ↦ rw f (
      subst (λ x. Steps e (record { exec = x; created = r.created; written = []; error = none }))
        (sym (wait-Steps a r.exec).1) h)
]

run-Steps : (a : ExecAnswers) (e : ContainerExec) → GivesIds a → Steps e (run_exec a e)
unfolding run_exec
run-Steps a e g = then_wait-Steps a e (start_exec a e) (start-Steps a e g)

call-Steps : (c : ExecCall) (e : ContainerExec) → GivesIds (answers_of c) → Steps e (call_exec c e)
unfolding call_exec output combined_output
call-Steps (starts a) e g = start-Steps a e g
call-Steps (waits a) e g = inl ((wait-Steps a e).0, ap (λ x. x.exec_id) (wait-Steps a e).1)
call-Steps (runs a) e g = run-Steps a e g
call-Steps (outputs buf a) e g = elim (Bool-cases (is_set e.stdout)) [
  | inl f ↦ inl (ground (arith, f), ground (arith, f))
  | inr f ↦ rw f (run-Steps a (record e { stdout = some buf }) g)
]
call-Steps (combines buf a) e g = elim (Bool-cases (is_set e.stdout)) [
  | inl f ↦ inl (ground (arith, f), ground (arith, f))
  | inr f ↦ elim (Bool-cases (is_set e.stderr)) [
    | inl x ↦ inl (ground (arith, f, x), ground (arith, f, x))
    | inr x ↦ rw f (rw x (run-Steps a (record e { stdout = some buf; stderr = some buf }) g))
  ]
]

created-none :
    (calls : List ExecCall) (e : ContainerExec)
    → AllGiveIds calls
    → e.exec_id ≢ ""
    → created_by calls e ≡ []
unfolding created_by
created-none [] e g n = refl
created-none (c ∷ calls) e (g, gs) n = elim (call-Steps c e g) [
  | inr (x, _, _) ↦ absurd (n x)
  | inl (x, y) ↦
      ap (λ l. l ++ created_by calls (call_exec c e).exec) x
      ∙ created-none calls (call_exec c e).exec gs (λ q. n (sym y ∙ q))
]

-- Where Docker gives an id to what it creates: any sequence of `Start`, `Wait`, `Run`, `Output` and
-- `CombinedOutput` creates the command at most once, and not at all where it was created before.
pub created-once :
    (calls : List ExecCall) (e : ContainerExec)
    → AllGiveIds calls
    → (created_by calls e ≡ [])
      ⊎ ((e.exec_id ≡ "") × ((id : String) × (created_by calls e ≡ id ∷ [])))
unfolding created_by
created-once [] e g = inl refl
created-once (c ∷ calls) e (g, gs) = elim (call-Steps c e g) [
  | inr (x, y, n) ↦ inr (
    x,
    (
      (call_exec c e).exec.exec_id,
      ap (λ l. l ++ created_by calls (call_exec c e).exec) y
          ∙ ap (λ l. (call_exec c e).exec.exec_id ∷ l)
              (created-none calls (call_exec c e).exec gs n),
    ),
  )
  | inl (x, y) ↦ elim (created-once calls (call_exec c e).exec gs) [
    | inl z ↦ inl (ap (λ l. l ++ created_by calls (call_exec c e).exec) x ∙ z)
    | inr (z, (id, w)) ↦
        inr (sym y ∙ z, (id, ap (λ l. l ++ created_by calls (call_exec c e).exec) x ∙ w))
  ]
]
