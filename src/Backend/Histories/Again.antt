-- ===== src/Backend/Histories/Again.antt =====
-- backend.go, `CreateContainer` for a container that was created before.
use confort.Base.{◌≡◌, Bool, false, List, [], String, none, Comparable, ap, ◌∙◌}
use confort.Consistency.Checks.{Configs}
use confort.Backend.Answers.{Answers}
use confort.Backend.Table.{Table}
use confort.Backend.Create.{Created, create_container}
use confort.Backend.Create.Again.{create-lookup, known_again}
use confort.Backend.Histories.{Use, use_all}
use confort.Backend.Histories.Later.{use_all-Later}

module _ {Healthcheck Int IpamConfig : Type 0} ⦃h : Comparable Healthcheck⦄ ⦃n : Comparable Int⦄
    ⦃i : Comparable IpamConfig⦄ where
  -- Once `CreateContainer` has returned a container without an error, and after any further calls of
  -- `CreateContainer` and `StartContainer`: a call for its name that does not check the config returns
  -- the same container, without an error, a call to Docker, or a change of the namespace.
  pub create_twice :
      (name : String) (given again : Configs Healthcheck Int IpamConfig)
      (consistency has_wait pulls wait_again pulls_again : Bool)
      (a b : Answers Healthcheck Int IpamConfig) (d : Table Healthcheck Int IpamConfig)
      (us : List (Use Healthcheck Int IpamConfig))
      → (create_container name given consistency has_wait pulls a d).error ≡ none
      → let r : Created Healthcheck Int IpamConfig =
          create_container name given consistency has_wait pulls a d in
        let d' : Table Healthcheck Int IpamConfig = use_all us r.table in
        create_container name again false wait_again pulls_again b d'
        ≡ record { table = d'; calls = []; id = r.id; error = none }
  create_twice name given again consistency has_wait pulls wait_again pulls_again a b d us e =
      let (c, l, same) = create-lookup name given consistency has_wait pulls a d e in
      let t : Table Healthcheck Int IpamConfig =
        (create_container name given consistency has_wait pulls a d).table in
      let (c', l', k) = (use_all-Later us t).keeps name c l in
      known_again name again wait_again pulls_again b (use_all us t) c' l'
      ∙ ap (λ j. record { table = use_all us t; calls = []; id = j; error = none })
          (k.same_id ∙ same)
