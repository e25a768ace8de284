-- ===== src/Audit/Tamper.antt =====
-- Why a tampered log of agent/audit.py is detected: two logs that verify and end in one hash have
-- the same contents, unless two of their own events collide. No assumption is made on the hash
-- function but the length of what it returns.
use Prim.Native.String.{◌++◌ as join, count}
use text.Mathlib.TextLemmas.{append_inj}
use downtime_aware_recovery.Common.{
  ℕ, zero, suc, ◌+◌, ◌-◌, ◌≤◌, String, ◌≡◌, ◌≢◌, ◌⊎◌, inl, inr, refl, true, List, [], ◌∷◌, arith,
  ◌==◌, eq_iff, map, length, Bool-cases, ap, sym, ◌∙◌,
}
use downtime_aware_recovery.Store.{EventRow, Env}
use downtime_aware_recovery.Audit.{genesis, digest, body_text, last_hash, verify_from, verify_chain}

abbrev pub event_text : Env → EventRow → String
event_text env e = body_text env e.case_id e.ts e.actor e.event_type e.payload

-- The text of which the hash of an event is the digest.
abbrev pub hashed_text : Env → EventRow → String
hashed_text env e = join e.prev_hash (event_text env e)

-- Some event of a log has a property.
abbrev pub Has : (EventRow → Type 0) → List EventRow → Type 0
Has P [] = ⊥
Has P (e ∷ es) = P e ⊎ Has P es

Has-map :
    {P Q : EventRow → Type 0}
    → ((e : EventRow) → P e → Q e)
    → (es : List EventRow) → Has P es
    → Has Q es
Has-map f [] h = absurd h
Has-map f (e ∷ es) (inl p) = inl (f e p)
Has-map f (e ∷ es) (inr h) = inr (Has-map f es h)

-- Two events hash different texts to one digest.
abbrev pub Collide : Env → EventRow → EventRow → Type 0
Collide env e f =
    (hashed_text env e ≢ hashed_text env f)
    × (env.sha256 (hashed_text env e) ≡ env.sha256 (hashed_text env f))

-- An event of the one log collides with an event of the other.
abbrev pub Collision : Env → List EventRow → List EventRow → Type 0
Collision env es fs = Has (λ e. Has (Collide env e) fs) es

-- An event of the log has for its digest what stands before the first event.
abbrev pub GenesisPreimage : Env → List EventRow → Type 0
GenesisPreimage env es = Has (λ e. env.sha256 (hashed_text env e) ≡ genesis) es

-- What an auditor reads of an event: the canonical text of its columns, and its hashes.
abbrev pub contents : Env → EventRow → String × String × String
contents env e = (e.prev_hash, event_text env e, e.hash)

verify_from-head :
    (env : Env) (p : String) (e : EventRow) (es : List EventRow)
    → verify_from env p (e ∷ es) ≡ true
    → (e.prev_hash ≡ p)
      × (env.sha256 (join p (event_text env e)) ≡ e.hash)
      × (verify_from env e.hash es ≡ true)
unfolding verify_from digest
verify_from-head env p e es h =
    ground (arith, eq_iff e.prev_hash p, eq_iff (env.sha256 (join p (event_text env e))) e.hash)

module _ (env : Env) (sha256-count : (s : String) → count (env.sha256 s) ≡ 64) where
  -- One digest of two events: the texts are equal, or the events collide.
  link :
      (e f : EventRow)
      → count e.prev_hash ≡ 64
      → count f.prev_hash ≡ 64
      → env.sha256 (hashed_text env e) ≡ env.sha256 (hashed_text env f)
      → Collide env e f ⊎ ((e.prev_hash ≡ f.prev_hash) × (event_text env e ≡ event_text env f))
  link e f cp cq h = elim (Bool-cases (hashed_text env e == hashed_text env f)) [
    | inl same ↦
        inr (append_inj ((eq_iff (hashed_text env e) (hashed_text env f)).0 same) (cp ∙ sym cq))
    | inr differ ↦ inl (λ eq. cc ((eq_iff (hashed_text env e) (hashed_text env f)).1 eq, differ), h)
  ]

  -- A collision in the rest of two logs, or of one of them.
  Collision-rest :
      (e f : EventRow) (es fs : List EventRow)
      → Collision env es fs
      → Collision env (e ∷ es) (f ∷ fs)
  Collision-rest e f es fs c = inr (Has-map (λ x h. inr h) es c)

  -- A verified event has the digest of its text for its hash.
  digest-hashed :
      (p : String) (e : EventRow) (es : List EventRow)
      → verify_from env p (e ∷ es) ≡ true
      → env.sha256 (hashed_text env e) ≡ e.hash
  digest-hashed p e es h =
      let (prev, digest, rest) = verify_from-head env p e es h in
      ap (λ q. env.sha256 (join q (event_text env e))) prev ∙ digest

  hash-count :
      (p : String) (e : EventRow) (es : List EventRow)
      → verify_from env p (e ∷ es) ≡ true
      → count e.hash ≡ 64
  hash-count p e es h =
      sym (ap count (verify_from-head env p e es h).1) ∙ sha256-count (join p (event_text env e))

  -- Equally long logs from any two starting hashes.
  agree :
      (es fs : List EventRow) (p q : String)
      → count p ≡ 64
      → count q ≡ 64
      → length es ≡ length fs
      → verify_from env p es ≡ true
      → verify_from env q fs ≡ true
      → last_hash p es ≡ last_hash q fs
      → Collision env es fs ⊎ ((p ≡ q) × (map (contents env) es ≡ map (contents env) fs))
  unfolding last_hash
  agree [] [] p q cp cq n h k l = inr (l, refl)
  agree [] (f ∷ fs) p q cp cq n h k l = absurd (omega arith)
  agree (e ∷ es) [] p q cp cq n h k l = absurd (omega arith)
  agree (e ∷ es) (f ∷ fs) p q cp cq n h k l =
      let he = verify_from-head env p e es h in
      let hf = verify_from-head env q f fs k in
      let rest : Collision env es fs
          ⊎ ((e.hash ≡ f.hash) × (map (contents env) es ≡ map (contents env) fs)) =
        agree es fs e.hash f.hash (hash-count p e es h) (hash-count q f fs k) (omega arith) he.2
          hf.2 l in
      elim rest [
        | inl c ↦ inl (Collision-rest e f es fs c)
        | inr (eh, tails) ↦
            elim (link e f (ap count he.0 ∙ cp) (ap count hf.0 ∙ cq)
              (digest-hashed p e es h ∙ eh ∙ sym (digest-hashed q f fs k))) [
                | inl c ↦ inl (inl (inl c))
                | inr (pq, texts) ↦ inr (sym he.0 ∙ pq ∙ hf.0, cc (pq, texts, eh, tails))
              ]
      ]

  -- A log that is longer by `k`: then the other one's starting hash is the digest of an event.
  agree_longer :
      (k : ℕ) (es fs : List EventRow) (p q : String)
      → count p ≡ 64
      → count q ≡ 64
      → length es ≡ k + length fs
      → verify_from env p es ≡ true
      → verify_from env q fs ≡ true
      → last_hash p es ≡ last_hash q fs
      → Collision env es fs
        ⊎ Has (λ e. env.sha256 (hashed_text env e) ≡ q) es
        ⊎ ((p ≡ q) × (map (contents env) es ≡ map (contents env) fs))
  agree_longer zero es fs p q cp cq n h k l = elim (agree es fs p q cp cq (omega arith) h k l) [
    | inl c ↦ inl c
    | inr same ↦ inr (inr same)
  ]
  agree_longer (suc m) [] fs p q cp cq n h k l = absurd (omega arith)
  agree_longer (suc m) (e ∷ es) fs p q cp cq n h k l =
      let he = verify_from-head env p e es h in
      elim (agree_longer m es fs e.hash q (hash-count p e es h) cq (omega arith) he.2 k
        (unfold last_hash in l)) [
          | inl c ↦ inl (inr c)
          | inr (inl preimage) ↦ inr (inl (inr preimage))
          | inr (inr (eq, same)) ↦ inr (inl (inl (digest-hashed p e es h ∙ eq)))
        ]

  -- Of two logs that both verify and whose newest events have one hash, the first at least as long
  -- as the second, every event has the same canonical text, the same hash and the same previous
  -- hash in both; or else an event of the first and one of the second hash different texts to one
  -- digest, or an event of the first has for its digest the hash that stands before the first event.
  pub head_hash_commits :
      (es fs : List EventRow)
      → length fs ≤ length es
      → verify_chain env es ≡ true
      → verify_chain env fs ≡ true
      → last_hash genesis es ≡ last_hash genesis fs
      → Collision env es fs
        ⊎ GenesisPreimage env es
        ⊎ (map (contents env) es ≡ map (contents env) fs)
  unfolding verify_chain
  head_hash_commits es fs n h k l =
      elim (agree_longer (length es - length fs) es fs genesis genesis refl refl (omega arith) h k
        l) [
          | inl c ↦ inl c
          | inr (inl preimage) ↦ inr (inl preimage)
          | inr (inr same) ↦ inr (inr same.1)
        ]
