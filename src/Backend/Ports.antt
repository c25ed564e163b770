-- ===== src/Backend/Ports.antt =====
-- backend.go, `Ports`: the host's addresses of a container's ports.
use Prim.Native.String.{◌++◌ as ◌+++◌, [] as empty_text, ◌∷◌ as ◌:::◌}
use Prim.Native.String.append
use Prim.Native.Char.{Char}
use confort.Base.{
  ◌≡◌, refl, false, List, [], ◌∷◌, String, none, some, if◌then◌else◌, ◌==◌, string_eq, lookup,
  Bool-cases, subst, sym, ◌∙◌, inl, inr,
}

-- `nat.PortBinding`
pub record PortBinding : Type 0 where
  pub host_ip : String
  pub host_port : String

-- `nat.PortMap`, by the ports as text.
abbrev pub Ports : Type 0
Ports = List (String × List PortBinding)

abbrev pub concat : String → String → String
concat s t = s +++ t

-- `p[port]`
abbrev pub bindings : String → Ports → List PortBinding
bindings port p = elim (lookup port p) [ none ↦ [] | some bs ↦ bs ]

unfoldable pub binding : String → Ports → PortBinding
binding port p = elim (bindings port p) [
  | [] ↦ record { host_ip = ""; host_port = "" }
  | b ∷ bs ↦ b
]

unfoldable pub host_port_of : String → Ports → String
host_port_of port p = elim (bindings port p) [
  | [] ↦ ""
  | b ∷ bs ↦ concat (concat b.host_ip ":") b.host_port
]

unfoldable pub url : String → String → Ports → String
unfolding host_port_of
url port scheme p =
    let used = (if scheme == "" then "http" else scheme) in
    let s = host_port_of port p in if s == "" then "" else concat (concat used "://") s

abbrev IsNonempty : String → Type 0
IsNonempty empty_text = ⊥
IsNonempty (c ::: s) = Unit

abbrev colon : Char
colon = ":"

colon-IsNonempty : (s t : String) → IsNonempty (concat (concat s ":") t)
colon-IsNonempty empty_text t =
    let p : concat (concat "" ":") t ≡ concat ":" t = λ i. concat (append.nil ":" i) t in
    let q : concat ":" t ≡ (colon ::: concat "" t) = λ i. append.cons colon "" t i in
    subst IsNonempty (sym (p ∙ q)) tt
colon-IsNonempty (c ::: s) t =
    let p : concat (concat (c ::: s) ":") t ≡ concat (c ::: concat s ":") t =
      λ i. concat (append.cons c s ":" i) t in
    let q : concat (c ::: concat s ":") t ≡ (c ::: concat (concat s ":") t) =
      λ i. append.cons c (concat s ":") t i in
    subst IsNonempty (sym (p ∙ q)) tt

nonempty : (s : String) → IsNonempty s → (s == "") ≡ false
nonempty s n = elim (Bool-cases (s == "")) [
  | inl e ↦ absurd (subst IsNonempty ((string_eq.beq_iff s "").0 e) n)
  | inr e ↦ e
]

-- What `Binding` returns.
abbrev pub first : List PortBinding → PortBinding
first [] = record { host_ip = ""; host_port = "" }
first (b ∷ bs) = b

-- Where a port has bindings: `URL` gives the scheme, or "http" where it is empty, and the host and the
-- port of the binding that `Binding` returns.
url-binding :
    (port scheme : String) (p : Ports) (b : PortBinding) (bs : List PortBinding)
    → lookup port p ≡ some (b ∷ bs)
    → url port scheme p
      ≡ concat
          (concat (if scheme == "" then "http" else scheme) "://")
          (concat (concat (binding port p).host_ip ":") (binding port p).host_port)
unfolding url host_port_of binding
url-binding port scheme p b bs e =
    rw (e, url, host_port_of, binding)
      (rw
        (nonempty (concat (concat b.host_ip ":") b.host_port)
          (colon-IsNonempty b.host_ip b.host_port))
        refl)
