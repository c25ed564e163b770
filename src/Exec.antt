-- ===== src/Exec.antt =====
-- exec.go: a command that is executed on a container.
pub mod Text
pub mod Once
mod Tests
use confort.Base.{
  ℕ, Bool, true, false, not, ◌&&◌, ◌||◌, List, [], ◌∷◌, ◌++◌, String, ◌⊎◌, inl, inr, Option, none,
  some, if◌then◌else◌, ◌==◌, ◌<>◌, string_eq, nat_eq,
}

-- A writer is named by a number; `none` for a nil one.
pub record ContainerExec : Type 0 where
  pub container_id : String
  pub cmd : List String
  pub working_dir : String
  pub env : List String
  pub exec_id : String
  pub stdout : Option ℕ
  pub stderr : Option ℕ

pub data ExecOption : Type 0 where
  with_exec_working_dir : String → ExecOption
  with_exec_env : List (String × String) → ExecOption

pub data ExecError : Type 0 where
  already_started not_started stdout_already_set stderr_already_set : ExecError
  docker_error : String → ExecError
  exit_error : ℕ → ExecError

-- What the Docker client answers: `create` gets `AttachStdout` and `AttachStderr` and gives an error or
-- an id; `frames` are what `StdCopy` reads before it ends with `copy_error`, where `true` stands for
-- stderr; `inspect` gives an error or the exit code.
pub record ExecAnswers : Type 0 where
  pub create : Bool → Bool → String ⊎ String
  pub attach_error : Option String
  pub frames : List (Bool × String)
  pub copy_error : Option String
  pub inspect : String ⊎ ℕ

-- `WithExecEnv`
unfoldable pub env_list : List (String × String) → List String
env_list [] = []
env_list ((k, v) ∷ kv) = (k <> ("=" <> v)) ∷ env_list kv

unfoldable pub apply_exec_options : List ExecOption → ContainerExec → ContainerExec
unfolding env_list
apply_exec_options [] e = e
apply_exec_options (with_exec_working_dir s ∷ opts) e =
    apply_exec_options opts (record e { working_dir = s })
apply_exec_options (with_exec_env kv ∷ opts) e =
    apply_exec_options opts (record e { env = env_list kv })

-- `CreateExec`, with the error of `ContainerInspect`.
unfoldable pub create_exec :
    Option String → String → List String → List ExecOption → ExecError ⊎ ContainerExec
unfolding apply_exec_options
create_exec (some e) id cmd opts = inl (docker_error e)
create_exec none id cmd opts = inr (
    apply_exec_options opts (record {
      container_id = id;
      cmd = cmd;
      working_dir = "";
      env = [];
      exec_id = "";
      stdout = none;
      stderr = none;
    }))

abbrev pub is_set : Option ℕ → Bool
is_set none = false
is_set (some w) = true

-- The exec afterwards, the ids that are created, what is written, and the error.
pub record Executed : Type 0 where
  pub exec : ContainerExec
  pub created : List String
  pub written : List (ℕ × String)
  pub error : Option ExecError

abbrev pub exec_fails : ContainerExec → ExecError → Executed
exec_fails e x = record { exec = e; created = []; written = []; error = some x }

-- `Start`
unfoldable pub start_exec : ExecAnswers → ContainerExec → Executed
start_exec a e =
    if not (e.exec_id == "")
    then exec_fails e already_started
    else (elim (a.create (is_set e.stdout || not (is_set e.stderr)) (is_set e.stderr)) [
      | inl x ↦ exec_fails e (docker_error x)
      | inr id ↦ record {
        exec = record e { exec_id = id };
        created = id ∷ [];
        written = [];
        error = none;
      }
    ])

abbrev pub write_to : Option ℕ → String → List (ℕ × String)
write_to none text = []
write_to (some w) text = (w, text) ∷ []

-- `StdCopy`; what is not wanted is discarded.
unfoldable pub std_copy : Option ℕ → Option ℕ → List (Bool × String) → List (ℕ × String)
std_copy stdout stderr [] = []
std_copy stdout stderr ((is_err, text) ∷ frames) =
    write_to (if is_err then stderr else stdout) text ++ std_copy stdout stderr frames

unfoldable pub exit_status : Option String → String ⊎ ℕ → Option ExecError
exit_status (some x) info = some (docker_error x)
exit_status none (inl x) = some (docker_error x)
exit_status none (inr code) = if code == 0 then none else some (exit_error code)

-- `Wait`
unfoldable pub wait_exec : ExecAnswers → ContainerExec → Executed
unfolding std_copy exit_status
wait_exec a e = if e.exec_id == "" then exec_fails e not_started else (elim a.attach_error [
  | some x ↦ exec_fails e (docker_error x)
  | none ↦ record {
    exec = e;
    created = [];
    written = std_copy e.stdout e.stderr a.frames;
    error = exit_status a.copy_error a.inspect;
  }
])

abbrev pub then_wait : ExecAnswers → Executed → Executed
then_wait a r = elim r.error [
  | some x ↦ r
  | none ↦ record (wait_exec a r.exec) { created = r.created }
]

-- `Run`
unfoldable pub run_exec : ExecAnswers → ContainerExec → Executed
unfolding start_exec wait_exec
run_exec a e = then_wait a (start_exec a e)

-- `Output`, where `buf` is the new buffer.
unfoldable pub output : ℕ → ExecAnswers → ContainerExec → Executed
unfolding run_exec
output buf a e =
    if is_set e.stdout
    then exec_fails e stdout_already_set
    else run_exec a (record e { stdout = some buf })

-- `CombinedOutput`
unfoldable pub combined_output : ℕ → ExecAnswers → ContainerExec → Executed
unfolding run_exec
combined_output buf a e =
    if is_set e.stdout
    then exec_fails e stdout_already_set
    else (if is_set e.stderr
        then exec_fails e stderr_already_set
        else run_exec a (record e { stdout = some buf; stderr = some buf }))

-- `buf.Bytes()`, as text.
unfoldable pub bytes_of : ℕ → List (ℕ × String) → String
bytes_of w [] = ""
bytes_of w ((v, text) ∷ written) =
    let rest = bytes_of w written in if v == w then text <> rest else rest
