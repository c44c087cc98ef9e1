-- ===== src/Realtime/Emitted.antt =====
-- What one client has received of all that was emitted.
use orbit_exchange.Base.{
  ℕ, ◌≡◌, refl, ap, Bool, List, [], ◌∷◌, ◌++◌, ◌==◌, ==-eq, if◌then◌else◌, on, sum_by, Bool-cases,
  inl, inr, arith,
}
use orbit_exchange.Realtime.{Emission, emit_to}

abbrev pub received : ℕ → List (ℕ × Emission) → List Emission
received c [] = []
received c ((d, x) ∷ es) = if d == c then x ∷ received c es else received c es

-- How often the client is connected.
abbrev pub count : ℕ → List ℕ → ℕ
count c = sum_by (λ d. on (d == c) 1)

pub received-append :
    (c : ℕ) (xs ys : List (ℕ × Emission)) → received c (xs ++ ys) ≡ received c xs ++ received c ys
received-append c [] ys = refl
received-append c ((d, x) ∷ xs) ys = elim (Bool-cases (d == c)) [
  | inl e ↦ rw e (ap (λ es. x ∷ es) (received-append c xs ys))
  | inr e ↦ rw e (received-append c xs ys)
]

pub emit_to-none :
    (c : ℕ) (p : ℕ → Bool) (x : Emission) (cs : List ℕ)
    → count c cs ≡ 0
    → received c (emit_to p x cs) ≡ []
emit_to-none c p x [] h = refl
emit_to-none c p x (d ∷ cs) h = elim (Bool-cases (d == c)) [
  | inl e ↦ ground (arith, e)
  | inr e ↦ elim (Bool-cases (p d)) [
    | inl q ↦ rw q (rw e (emit_to-none c p x cs (ground (arith, e))))
    | inr q ↦ rw q (emit_to-none c p x cs (ground (arith, e)))
  ]
]

pub emit_to-one :
    (c : ℕ) (p : ℕ → Bool) (x : Emission) (cs : List ℕ)
    → count c cs ≡ 1
    → received c (emit_to p x cs) ≡ (if p c then x ∷ [] else [])
emit_to-one c p x [] h = ground arith
emit_to-one c p x (d ∷ cs) h = elim (Bool-cases (d == c)) [
  | inl e ↦
      let rest = emit_to-none c p x cs (ground (arith, e)) in
      let me : p d ≡ p c = ap p (==-eq d c e) in
      elim (Bool-cases (p c)) [
        | inl q ↦ rw (me, q) (rw e (ap (λ es. x ∷ es) rest))
        | inr q ↦ rw (me, q) rest
      ]
  | inr e ↦ elim (Bool-cases (p d)) [
    | inl q ↦ rw q (rw e (emit_to-one c p x cs (ground (arith, e))))
    | inr q ↦ rw q (emit_to-one c p x cs (ground (arith, e)))
  ]
]
