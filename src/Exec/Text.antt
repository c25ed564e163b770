-- ===== src/Exec/Text.antt =====
-- exec.go: the output of a command, and its error.
use confort.Base.{
  ℕ, ◌≡◌, ◌≢◌, ◌↔◌, refl, Bool, true, false, List, [], ◌∷◌, String, ◌⊎◌, inl, inr, Option, none,
  some, ◌==◌, ◌<>◌, string_eq, nat_eq, arith, Bool-cases, ap, sym, subst, ◌∙◌,
}
use confort.Exec.{
  ContainerExec, ExecAnswers, is_set, start_exec, std_copy, exit_status, wait_exec, run_exec,
  output, bytes_of,
}

-- The text of stdout, in order.
abbrev pub stdout_text : List (Bool × String) → String
stdout_text [] = ""
stdout_text ((true, text) ∷ frames) = stdout_text frames
stdout_text ((false, text) ∷ frames) = text <> stdout_text frames

std_copy-stdout :
    (buf : ℕ) (stderr : Option ℕ) (frames : List (Bool × String))
    → stderr ≢ some buf
    → bytes_of buf (std_copy (some buf) stderr frames) ≡ stdout_text frames
unfolding std_copy bytes_of
std_copy-stdout buf stderr [] n = refl
std_copy-stdout buf stderr ((false, text) ∷ frames) n =
    ground (arith, std_copy-stdout buf stderr frames n)
std_copy-stdout buf none ((true, text) ∷ frames) n = std_copy-stdout buf none frames n
std_copy-stdout buf (some w) ((true, text) ∷ frames) n = elim (Bool-cases (w == buf)) [
  | inl e ↦ absurd (n (ap some (ground (arith, e, nat_eq.beq_iff w buf))))
  | inr e ↦ ground (arith, e, std_copy-stdout buf (some w) frames n)
]

exit_status-none :
    (copy_error : Option String) (inspect : String ⊎ ℕ)
    → (exit_status copy_error inspect ≡ none) ↔ ((copy_error ≡ none) × (inspect ≡ inr 0))
unfolding exit_status
exit_status-none (some x) inspect =
    ((λ q. absurd (ground (arith, q))), (λ q. absurd (ground (arith, q))))
exit_status-none none (inl x) =
    ((λ q. absurd (ground (arith, q))), (λ q. absurd (ground (arith, q))))
exit_status-none none (inr code) = ground (arith, nat_eq.beq_iff code 0)

output-runs :
    (buf : ℕ) (a : ExecAnswers) (e : ContainerExec) (id : String)
    → e.stdout ≡ none
    → e.exec_id ≡ ""
    → a.create true (is_set e.stderr) ≡ inr id
    → id ≢ ""
    → a.attach_error ≡ none
    → ((output buf a e).written ≡ std_copy (some buf) e.stderr a.frames)
      × ((output buf a e).error ≡ exit_status a.copy_error a.inspect)
unfolding output run_exec start_exec wait_exec
output-runs buf a e id o x c i t =
    let start : start_exec a (record e { stdout = some buf }) ≡ record {
      exec = record e { stdout = some buf; exec_id = id };
      created = id ∷ [];
      written = [];
      error = none;
    } =
      ground (arith, x, c, string_eq.beq_iff e.exec_id "") in
    let named : (id == "") ≡ false = ground (arith, i, string_eq.beq_iff id "") in
    (rw o (rw start (rw named (rw t refl))), rw o (rw start (rw named (rw t refl))))

-- Where stdout is not set, stderr is not the new buffer, and the command is not started yet, but Docker
-- creates it with an id and attaches it: `Output` gives the text of stdout in order, and its error is
-- nil exactly if everything is copied and the command exits with 0.
pub output-stdout :
    (buf : ℕ) (a : ExecAnswers) (e : ContainerExec) (id : String)
    → e.stdout ≡ none
    → e.stderr ≢ some buf
    → e.exec_id ≡ ""
    → a.create true (is_set e.stderr) ≡ inr id
    → id ≢ ""
    → a.attach_error ≡ none
    → (bytes_of buf (output buf a e).written ≡ stdout_text a.frames)
      × (((output buf a e).error ≡ none) ↔ ((a.copy_error ≡ none) × (a.inspect ≡ inr 0)))
output-stdout buf a e id o n x c i t =
    let (w, r) = output-runs buf a e id o x c i t in
    (
      ap (bytes_of buf) w ∙ std_copy-stdout buf e.stderr a.frames n,
      subst (λ z. (z ≡ none) ↔ ((a.copy_error ≡ none) × (a.inspect ≡ inr 0))) (sym r)
          (exit_status-none a.copy_error a.inspect),
    )
