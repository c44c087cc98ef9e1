-- ===== src/Idempotency/Replay.antt =====
-- What a repeated request meets, and what the sweep leaves.
use orbit_exchange.Base.{
  ℕ, zero, suc, ◌+◌, ◌*◌, ◌≡◌, ◌⊎◌, Option, ◌≢◌, ◌≤◌, refl, sym, ap, List, [], ◌∷◌, ◌++◌, none,
  some, Bool, true, false, not, ◌==◌, keep_if, length, find_if, Bool-cases, Option-cases, ==-refl,
  ==-eq, ==-ne, inl, inr, arith,
}
use mathlib.Core.Path.{subst, subst₂}
use orbit_exchange.Base.Outcome.{Error}
use orbit_exchange.Idempotency.{
  Scope, Response, IdempotencyKey, Request, Answer, responded, key_reused, Site, Handle, same_scope,
  scope_of, lookup, persist, intercept, miss, replay, look, is_expired, delete_expired,
}

find_if-append :
    (p : IdempotencyKey → Bool) (ks : List IdempotencyKey) (k : IdempotencyKey)
    → find_if p ks ≡ none
    → p k ≡ true
    → find_if p (ks ++ k ∷ []) ≡ some k
find_if-append p [] k h e = rw e refl
find_if-append p (j ∷ ks) k h e = elim (Bool-cases (p j)) [
  | inl f ↦ ground (arith, rw f at h)
  | inr f ↦ rw f (find_if-append p ks k (rw f at h) e)
]

same_scope_refl : (s : Scope) → same_scope s s ≡ true
same_scope_refl s = rw (==-refl s.user_id, ==-refl s.key, ==-refl s.method, ==-refl s.path) refl

-- The row that answers for this request.
abbrev Cached : Scope → ℕ → Response → List IdempotencyKey → Type 0
Cached s h r ks =
    (k : IdempotencyKey) × (lookup s ks ≡ some k) × (k.request_hash ≡ h) × (k.response ≡ r)

-- What a response says, if the answer is one.
abbrev answered : Response → Answer → Response
answered other (responded r) = r
answered other _ = other

abbrev is_responded : Answer → Bool
is_responded (responded r) = true
is_responded _ = false

responded-injective : {a b : Response} → responded a ≡ responded b → a ≡ b
responded-injective {a} h = ap (answered a) h

persist-Cached :
    (now : ℕ) (s : Scope) (h : ℕ) (r : Response) (ks : List IdempotencyKey)
    → lookup s ks ≡ none
    → Cached s h r (persist none now s h r ks)
persist-Cached now s h r ks e =
    let k : IdempotencyKey = record {
      scope = s;
      request_hash = h;
      response = r;
      expires_at = now + 24 * 60 * 60 * 1000;
    } in
    rw (e, persist)
      (k, find_if-append (λ j. same_scope j.scope s) ks k e (same_scope_refl s), refl, refl)

-- The insert failed, and the key is as free as it was.
abbrev pub IsFree : Option Error → Scope → List IdempotencyKey → Type 0
IsFree insert s ks = (e : Error) × (insert ≡ some e) × (lookup s ks ≡ none)

persist-cases :
    (insert : Option Error) (now : ℕ) (s : Scope) (h : ℕ) (r : Response) (ks : List IdempotencyKey)
    → lookup s ks ≡ none
    → Cached s h r (persist insert now s h r ks) ⊎ IsFree insert s (persist insert now s h r ks)
persist-cases none now s h r ks e = inl (persist-Cached now s h r ks e)
persist-cases (some x) now s h r ks e = inr (x, refl, e)

module _ {W : Type 0} (hash : ℕ → ℕ) where
  miss-Cached :
      (insert : Option Error) (now : ℕ) (s : Scope) (h : ℕ) (handle : Handle W) (c c' : Site W)
      (r : Response)
      → lookup s c.keys ≡ none
      → miss hash insert now s h handle c ≡ (responded r, c')
      → Cached s h r c'.keys ⊎ IsFree insert s c'.keys
  miss-Cached insert now s h handle c c' r fresh e = elim (Option-cases (handle c.work).0) [
    | inl f ↦ ground (arith, ap (λ y. is_responded y.0) (rw (f, miss) at e))
    | inr (a, f) ↦
        let e' = rw (f, miss) at e in
        subst₂ (λ q ks. Cached s h q ks ⊎ IsFree insert s ks)
          (responded-injective (ap (λ y. y.0) e')) (ap (λ y. y.1.keys) e')
          (persist-cases insert now s h a c.keys fresh)
  ]

  replay-Cached :
      (s : Scope) (h : ℕ) (k : IdempotencyKey) (c c' : Site W) (r : Response)
      → lookup s c.keys ≡ some k
      → replay hash h k c ≡ (responded r, c')
      → Cached s h r c'.keys
  replay-Cached s h k c c' r found e = elim (Bool-cases (k.request_hash == h)) [
    | inl same ↦
        let e' = rw same at e in
        subst (λ ks. Cached s h r ks) (ap (λ y. y.1.keys) e')
          (k, found, ==-eq k.request_hash h same, responded-injective (ap (λ y. y.0) e'))
    | inr other ↦ ground (arith, ap (λ y. is_responded y.0) (rw other at e))
  ]

  look-Cached :
      (insert : Option Error) (now : ℕ) (s : Scope) (h : ℕ) (handle : Handle W) (c c' : Site W)
      (r : Response)
      → look hash (lookup s c.keys) insert now s h handle c ≡ (responded r, c')
      → Cached s h r c'.keys ⊎ IsFree insert s c'.keys
  look-Cached insert now s h handle c c' r e = elim (Option-cases (lookup s c.keys)) [
    | inl f ↦ miss-Cached insert now s h handle c c' r f (rw f at e)
    | inr (k, f) ↦ inl (replay-Cached s h k c c' r f (rw f at e))
  ]

  -- What the same request, and one with another body, have as their answers.
  abbrev pub IsReplayed :
      Request → Request → Option Error → ℕ → Handle W → Site W → Response → Type 0
  IsReplayed q q' insert later handle c r =
      (intercept hash q insert later handle c ≡ (responded r, c))
      × (intercept hash (record q { body = q'.body }) insert later handle c ≡ (key_reused, c))

  -- A request with a UUID key, of a known user, that was answered: the same request again has the
  -- same answer and no effect, and one with a body of another hash is refused with no effect. The
  -- exception is an answer whose row could not be inserted: the same request then runs the handler
  -- again, with its effects.
  pub intercept-again :
      (q q' : Request) (insert again : Option Error) (key user now later : ℕ)
      (handle handle' : Handle W) (c c' : Site W) (r : Response)
      → q.raw_key ≡ some key
      → q.user_id ≡ some user
      → q.is_uuid ≡ true
      → intercept hash q insert now handle c ≡ (responded r, c')
      → hash q'.body ≢ hash q.body
      → IsReplayed q q' again later handle' c' r
        ⊎ (((e : Error) × (insert ≡ some e))
            × (intercept hash q again later handle' c'
                ≡ miss hash again later (scope_of q key user) (hash q.body) handle' c'))
  unfolding intercept
  intercept-again q q' insert again key user now later handle handle' c c' r keyed known uuid e
        other =
      let e' = rw (keyed, known, uuid) at e in
      let cached = look-Cached insert now (scope_of q key user) (hash q.body) handle c c' r e' in
      elim cached [
        | inl (k, found, same, was) ↦ inl (
          rw (keyed, uuid, known, found, same, ==-refl (hash q.body), was) refl,
          rw
              (
                keyed,
                uuid,
                known,
                found,
                same,
                ==-ne (hash q.body) (hash q'.body) (λ f. other (sym f)),
              )
              refl,
        )
        | inr (x, failed, free) ↦ inr ((x, failed), rw (keyed, uuid, known, free) refl)
      ]

-- A sweep drops expired rows only, as many as it reports and no more than its limit, and the other
-- rows stay in their order.
pub delete_expired-keeps :
    (n now : ℕ) (ks : List IdempotencyKey)
    → (keep_if (λ k. not (is_expired now k)) (delete_expired n now ks).1
        ≡ keep_if (λ k. not (is_expired now k)) ks)
      × (length (delete_expired n now ks).1 + (delete_expired n now ks).0 ≡ length ks)
      × ((delete_expired n now ks).0 ≤ n)
unfolding delete_expired
delete_expired-keeps zero now ks = (refl, omega arith, omega arith)
delete_expired-keeps (suc n) now [] = (refl, refl, omega arith)
delete_expired-keeps (suc n) now (k ∷ ks) = elim (Bool-cases (is_expired now k)) [
  | inl e ↦
      let (kept, count, bound) = delete_expired-keeps n now ks in
      rw e (kept, omega (arith, count), omega (arith, bound))
  | inr e ↦
      let (kept, count, bound) = delete_expired-keeps (suc n) now ks in
      rw e (rw e (ap (λ js. k ∷ js) kept), omega (arith, count), bound)
]
