-- ===== src/Exec/Tests.antt =====
-- A command that writes to stdout and stderr, and exits with 0.
use confort.Base.{
  ◌≡◌, ◌≢◌, ◌↔◌, ◌∷◌, [], refl, true, false, String, ◌⊎◌, inl, inr, none, string_eq, arith, ap,
}
use confort.Exec.{ContainerExec, ExecAnswers, output, bytes_of}
use confort.Exec.Text.{output-stdout}
use confort.Exec.Once.{runs, starts, outputs, GivesIds, created_by, created-once}

abbrev ls : ContainerExec
ls = record {
  container_id = "c1";
  cmd = "ls" ∷ [];
  working_dir = "";
  env = [];
  exec_id = "";
  stdout = none;
  stderr = none;
}

abbrev exec_answers : ExecAnswers
exec_answers = record {
  create = λ out err. inr "e1";
  attach_error = none;
  frames = (false, "a") ∷ (true, "oops") ∷ (false, "b") ∷ [];
  copy_error = none;
  inspect = inr 0;
}

abbrev e1 : String
e1 = "e1"

e1_named : e1 ≢ ""
e1_named e = ground (arith, e, string_eq.beq_iff e1 "")

abbrev id_of : String ⊎ String → String
id_of (inl e) = e
id_of (inr id) = id

output-stdout_example :
    (bytes_of 1 (output 1 exec_answers ls).written ≡ "ab")
    × (((output 1 exec_answers ls).error ≡ none)
        ↔ (exec_answers.copy_error ≡ none) × (exec_answers.inspect ≡ inr 0))
output-stdout_example =
    output-stdout 1 exec_answers ls "e1" refl (λ e. ground (arith, e)) refl refl e1_named refl

has_ids : GivesIds exec_answers
has_ids out err e = e1_named (ap id_of e)

created-once_example :
    (created_by (starts exec_answers ∷ runs exec_answers ∷ outputs 1 exec_answers ∷ []) ls ≡ [])
    ⊎ ((ls.exec_id ≡ "")
        × ((id : String) × (created_by
                (starts exec_answers ∷ runs exec_answers ∷ outputs 1 exec_answers ∷ [])
                ls
              ≡ id ∷ [])))
created-once_example =
    created-once (starts exec_answers ∷ runs exec_answers ∷ outputs 1 exec_answers ∷ []) ls
      (has_ids, (has_ids, (has_ids, tt)))
