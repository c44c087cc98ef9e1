-- ===== src/AuditLogger/Archived.antt =====
-- Nothing that the consumer has gone past is missing in the bucket.
use orbit_exchange.Base.{
  ℕ, zero, suc, ◌≡◌, ◌≤◌, ◌<◌, ◌⊎◌, ◌&&◌, refl, sym, ap, List, [], ◌∷◌, ◌++◌, Option, none, some,
  ◌==◌, length, length-append, take, IsIn, Every, Every-map, Every-append, Bool-cases, inl, inr,
  arith,
}
use mathlib.Core.Path.{subst}
use orbit_exchange.AuditLogger.{
  Object, Logger, Put, acknowledged, unacknowledged, refused, put_object, lines_of, archive,
  advance, each_batch, Happening, produced, batched, happen, run,
}

-- The line is in an object that begins before this offset.
abbrev pub IsKept : ℕ → List Object → ℕ → Type 0
IsKept c [] v = ⊥
IsKept c (o ∷ os) v = (IsIn v o.lines × (o.first < c)) ⊎ IsKept c os v

-- Every line before the consumer's position is kept.
abbrev pub IsArchived : Logger → Type 0
IsArchived s = Every (IsKept (length s.read) s.bucket) (lines_of s.read)

IsKept-later : (c d : ℕ) (os : List Object) (v : ℕ) → c ≤ d → IsKept c os v → IsKept d os v
IsKept-later c d [] v le k = k
IsKept-later c d (o ∷ os) v le (inl (i, f)) = inl (i, omega (arith, f, le))
IsKept-later c d (o ∷ os) v le (inr k) = inr (IsKept-later c d os v le k)

-- An upload that begins at the offset overwrites no object that begins before it.
IsKept-put_object :
    (c : ℕ) (o : Object) (os : List Object) (v : ℕ)
    → c ≤ o.first
    → IsKept c os v
    → IsKept c (put_object o os) v
IsKept-put_object c o [] v le k = absurd k
IsKept-put_object c o (p ∷ ps) v le (inl (i, f)) =
    elim (Bool-cases (p.hour == o.hour && p.first == o.first)) [
      | inl same ↦
          let at : p.first ≡ o.first = ground (arith, same) in absurd (omega (arith, at, f, le))
      | inr other ↦ rw other (inl (i, f))
    ]
IsKept-put_object c o (p ∷ ps) v le (inr k) =
    elim (Bool-cases (p.hour == o.hour && p.first == o.first)) [
      | inl same ↦ rw same (inr k)
      | inr other ↦ rw other (inr (IsKept-put_object c o ps v le k))
    ]

IsKept-new :
    (c : ℕ) (o : Object) (os : List Object) (v : ℕ)
    → IsIn v o.lines
    → o.first < c
    → IsKept c (put_object o os) v
IsKept-new c o [] v i f = inl (i, f)
IsKept-new c o (p ∷ ps) v i f = elim (Bool-cases (p.hour == o.hour && p.first == o.first)) [
  | inl same ↦ rw same (inl (i, f))
  | inr other ↦ rw other (inr (IsKept-new c o ps v i f))
]

Every-IsIn_self : (xs : List ℕ) → Every (λ x. IsIn x xs) xs
Every-IsIn_self [] = tt
Every-IsIn_self (x ∷ xs) = (inl refl, Every-map (λ y i. inr i) xs (Every-IsIn_self xs))

lines_of-append : (ms ns : List (Option ℕ)) → lines_of (ms ++ ns) ≡ lines_of ms ++ lines_of ns
lines_of-append [] ns = refl
lines_of-append (none ∷ ms) ns = lines_of-append ms ns
lines_of-append (some v ∷ ms) ns = ap (λ vs. v ∷ vs) (lines_of-append ms ns)

some_seen : (ms : List (Option ℕ)) (l : ℕ) (ls : List ℕ) → lines_of ms ≡ l ∷ ls → 0 < length ms
some_seen [] l ls h = cc
some_seen (m ∷ ms) l ls h = omega arith

-- The offset advances past messages whose lines are kept.
advance-IsArchived :
    (n : ℕ) (s : Logger) (os : List Object)
    → Every (IsKept (length s.read) os) (lines_of s.read)
    → Every (IsKept (length (s.read ++ take n s.unread)) os) (lines_of (take n s.unread))
    → IsArchived (advance n (record s { bucket = os }))
advance-IsArchived n s os old new =
    subst (Every (IsKept (length (s.read ++ take n s.unread)) os))
      (sym (lines_of-append s.read (take n s.unread)))
      (Every-append _ (lines_of s.read) (lines_of (take n s.unread))
        (Every-map
          (λ v k.
            IsKept-later (length s.read) (length (s.read ++ take n s.unread)) os v
              (omega (arith, length-append s.read (take n s.unread))) k)
          (lines_of s.read) old)
        new)

archive-IsArchived :
    (hour n : ℕ) (put : Put) (ls : List ℕ) (s : Logger)
    → lines_of (take n s.unread) ≡ ls
    → IsArchived s
    → IsArchived (archive hour n put ls s)
archive-IsArchived hour n put [] s e i = advance-IsArchived n s s.bucket i (rw e tt)
archive-IsArchived hour n acknowledged (l ∷ ls) s e i =
    let o : Object = record { hour = hour; first = length s.read; lines = l ∷ ls } in
    let later : length s.read < length (s.read ++ take n s.unread) =
      omega (arith, length-append s.read (take n s.unread), some_seen (take n s.unread) l ls e) in
    advance-IsArchived n s (put_object o s.bucket)
      (Every-map (λ v k. IsKept-put_object (length s.read) o s.bucket v (omega arith) k)
        (lines_of s.read) i)
      (subst (Every (IsKept (length (s.read ++ take n s.unread)) (put_object o s.bucket))) (sym e) (
        Every-map (λ v there. IsKept-new _ o s.bucket v there later) (l ∷ ls)
          (Every-IsIn_self (l ∷ ls))))
archive-IsArchived hour n unacknowledged (l ∷ ls) s e i =
    Every-map (λ v k. IsKept-put_object (length s.read) _ s.bucket v (omega arith) k)
      (lines_of s.read) i
archive-IsArchived hour n refused (l ∷ ls) s e i = i

take-take : (m n : ℕ) (ms : List (Option ℕ)) → m ≤ n → take n (take m ms) ≡ take m ms
take-take zero zero ms h = refl
take-take zero (suc n) ms h = refl
take-take (suc m) zero ms h = absurd (omega (arith, h))
take-take (suc m) (suc n) [] h = refl
take-take (suc m) (suc n) (x ∷ ms) h = ap (λ ns. x ∷ ns) (take-take m n ms (omega (arith, h)))

-- The loop over a fetch does not break off.
abbrev pub IsWhole : Happening → Type 0
IsWhole (produced m) = Unit {0}
IsWhole (batched hour fetched seen put) = fetched ≤ seen

happen-IsArchived :
    (h : Happening) (s : Logger) → IsWhole h → IsArchived s → IsArchived (happen h s)
unfolding each_batch
happen-IsArchived (produced m) s whole i = i
happen-IsArchived (batched hour fetched seen put) s whole i =
    archive-IsArchived hour fetched put (lines_of (take seen (take fetched s.unread))) s
      (ap lines_of (sym (take-take fetched seen s.unread whole))) i

-- While the consumer keeps the partition, and no loop over a fetch breaks off, whatever batches are
-- fetched, however large, in whatever hours and with whatever failures of the upload, also ones
-- that come after the object is stored: every value before the consumer's position is in an object
-- of the bucket that begins before that position. The consumer never goes past a message that is not
-- archived, and no repeated upload overwrites one.
pub run-IsArchived :
    (hs : List Happening) (s : Logger) → Every IsWhole hs → IsArchived s → IsArchived (run hs s)
unfolding run
run-IsArchived [] s whole i = i
run-IsArchived (h ∷ hs) s (whole, rest) i =
    run-IsArchived hs (happen h s) rest (happen-IsArchived h s whole i)
