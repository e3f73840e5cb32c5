-- ===== src/Auth/ClientIp.antt =====
-- auth/rate_limit.py: `_client_ip`. Texts are lists of code points.
use mathlib.Core.List.{head?}
use lumen_ai_support_agent.Prelude.{
  Bool-cases, List, Option, [], ap, arith, drop, if◌then◌else◌, inl, inr, length, length-append,
  ltb, nat_eq, none, refl, some, suc, true, zero, ℕ, ◌&&◌, ◌++◌, ◌+◌, ◌-◌, ◌<◌, ◌∙◌, ◌∷◌, ◌≡◌, ◌≤◌,
}
use lumen_ai_support_agent.Knowledge.Text.{Text, code_points, is_blank, is_space}

-- The `x-forwarded-for` header and the socket's peer.
pub record HttpRequest : Type 0 where
  pub forwarded_for : Option Text
  pub client_host : Option Text

-- `s.split(",")`: the piece that is being read, and those after it.
unfoldable pub split_commas : Text → Text × List Text
split_commas [] = ([], [])
split_commas (c ∷ cs) =
    let (piece, later) = split_commas cs in
    if nat_eq c 44 then ([], piece ∷ later) else (c ∷ piece, later)

unfoldable pub strip_left : Text → Text
strip_left [] = []
strip_left (c ∷ cs) = if is_space c then strip_left cs else c ∷ cs

unfoldable pub strip_right : Text → Text
strip_right [] = []
strip_right (c ∷ cs) =
    let rest = strip_right cs in if is_space c && is_blank rest then [] else c ∷ rest

unfoldable pub strip : Text → Text
strip s = strip_right (strip_left s)

unfoldable pub keep : Text → List Text → List Text
keep [] ps = ps
keep (c ∷ cs) ps = (c ∷ cs) ∷ ps

-- The stripped pieces that are not empty.
unfoldable pub kept : List Text → List Text
kept [] = []
kept (p ∷ ps) = keep (strip p) (kept ps)

unfoldable pub entries : Text → List Text
entries forwarded = let (piece, later) = split_commas forwarded in kept (piece ∷ later)

-- `entries[-hops - 1]` of more than `hops` entries, and `entries[0]` of fewer.
unfoldable pub pick : ℕ → List Text → Option Text
pick hops es = if ltb hops (length es) then head? (drop (length es - hops - 1) es) else head? es

unfoldable pub peer : HttpRequest → Text
peer request = elim request.client_host [ none ↦ code_points "unknown" | some host ↦ host ]

unfoldable pub client_ip : ℕ → HttpRequest → Text
client_ip zero request = peer request
client_ip (suc n) request = elim request.forwarded_for [
  | none ↦ peer request
  | some forwarded ↦ elim (pick (suc n) (entries forwarded)) [ none ↦ peer request | some ip ↦ ip ]
]

-- The character in front of the first piece.
longer : ℕ → List Text → List Text
longer c [] = []
longer c (p ∷ ps) = (c ∷ p) ∷ ps

split_commas-append :
    (p q : Text)
    → (split_commas (p ++ 44 ∷ q)).0 ∷ (split_commas (p ++ 44 ∷ q)).1
      ≡ ((split_commas p).0 ∷ (split_commas p).1) ++ ((split_commas q).0 ∷ (split_commas q).1)
unfolding split_commas longer
split_commas-append [] q = refl
split_commas-append (c ∷ p) q = elim (Bool-cases (nat_eq c 44)) [
  | inl y ↦ rw y (ap (λ ps. [] ∷ ps) (split_commas-append p q))
  | inr n ↦ rw n (ap (longer c) (split_commas-append p q))
]

keep-append : (p : Text) (ps qs : List Text) → keep p (ps ++ qs) ≡ keep p ps ++ qs
unfolding keep
keep-append [] ps qs = refl
keep-append (c ∷ cs) ps qs = refl

kept-append : (ps qs : List Text) → kept (ps ++ qs) ≡ kept ps ++ kept qs
unfolding kept
kept-append [] qs = refl
kept-append (p ∷ ps) qs =
    ap (keep (strip p)) (kept-append ps qs) ∙ keep-append (strip p) (kept ps) (kept qs)

entries-append : (p q : Text) → entries (p ++ 44 ∷ q) ≡ entries p ++ entries q
unfolding entries
entries-append p q = ap kept (split_commas-append p q) ∙ kept-append _ _

drop-append : (es fs : List Text) (k : ℕ) → drop (length es + k) (es ++ fs) ≡ drop k fs
drop-append [] fs k = let e : 0 + k ≡ k = omega arith in rw e refl
drop-append (e ∷ es) fs k =
    let n : suc (length es) + k ≡ suc (length es + k) = omega arith in rw n (drop-append es fs k)

pick-append :
    (hops : ℕ) (es fs : List Text) → hops < length fs → pick hops (es ++ fs) ≡ pick hops fs
unfolding pick
pick-append hops es fs h =
    let n = length-append es fs in
    let long : ltb hops (length (es ++ fs)) ≡ true = ground arith in
    let enough : ltb hops (length fs) ≡ true = ground arith in
    let k : length (es ++ fs) - hops - 1 ≡ length es + (length fs - hops - 1) = omega (arith, n) in
    rw (long, enough)
      (ap (λ m. head? (drop m (es ++ fs))) k ∙ ap head? (drop-append es fs (length fs - hops - 1)))

-- With at least one trusted proxy, what stands in the header before a comma does not change the
-- address that is taken, when the part after the comma has more entries than there are trusted
-- proxies.
pub client_ip_unspoofed :
    (hops : ℕ) (p q : Text) (host : Option Text)
    → 1 ≤ hops
    → hops < length (entries q)
    → client_ip hops (record { forwarded_for = some (p ++ 44 ∷ q); client_host = host })
      ≡ client_ip hops (record { forwarded_for = some q; client_host = host })
unfolding client_ip peer
client_ip_unspoofed zero p q host k h = absurd (omega arith)
client_ip_unspoofed (suc n) p q host k h =
    rw (client_ip, entries-append p q, pick-append (suc n) (entries p) (entries q) h) refl
