-- ===== src/Events/Streams/Contents.antt =====
-- What the partitions hold after publications: the messages for them, all, in order and numbered.
use mathlib.Core.List.{append_assoc, append-nil}
use hexastack.Base.{
  ℕ, suc, ◌%◌, ◌≡◌, refl, ap, sym, ◌∙◌, String, Bool, true, false, Option, none, some, List, [],
  ◌∷◌, ◌++◌, max, keep, length, length-append, ◌⊎◌, ◌≢◌, inl, inr, ite, arith,
}
use hexastack.Base.Int.{ℤ, pos_part}
use hexastack.Dict.{string_key, nat_key}
use hexastack.Events.Streams.{
  StreamMessage, Adapter, hash_partition, partition_of, queue, publish, init,
}
use hexastack.Events.Streams.Sequences.{
  Publication, publish_one, publish_all, queue-set_queue_self, queue-set_queue_stream,
  queue-set_queue_partition,
}

-- The partition that a key belongs to, of which there is one at least.
abbrev pub slot : (String → ℕ) → ℤ → Option String → ℕ
slot digest n none = 0
slot digest n (some key) = digest key % max 1 (pos_part n)

module _ {P : Type 0} where
  abbrev pub goes_to : (String → ℕ) → ℤ → String → ℕ → Publication P → Bool
  goes_to digest n st p x =
      ite (string_key.dec st x.stream)
        (ite (nat_key.dec p (slot digest n x.partition_key)) true false) false

  abbrev pub message : String → ℕ → ℕ → Publication P → StreamMessage P
  message st p k x = record {
    stream = st;
    partition = p;
    sequence = k;
    payload = x.payload;
    id = x.id;
    timestamp = x.now;
    partition_key = x.partition_key;
    headers = x.headers;
  }

  -- The publications as messages of a partition, numbered from `k` on.
  abbrev pub numbered : String → ℕ → ℕ → List (Publication P) → List (StreamMessage P)
  numbered st p k [] = []
  numbered st p k (x ∷ xs) = message st p k x ∷ numbered st p (suc k) xs

partition_of-slot :
    (digest : String → ℕ) (n : ℤ) (key : Option String)
    → partition_of digest (max 1 (pos_part n)) key ≡ slot digest n key
unfolding hash_partition
partition_of-slot digest n none = refl
partition_of-slot digest n (some key) = grind arith

module _ {P : Type 0} (digest : String → ℕ) (n : ℤ) where
  goes_to-cases :
      (st : String) (p : ℕ) (x : Publication P)
      → ((goes_to digest n st p x ≡ true) × (st ≡ x.stream) × (p ≡ slot digest n x.partition_key))
        ⊎ ((goes_to digest n st p x ≡ false)
            × ((st ≢ x.stream) ⊎ (p ≢ slot digest n x.partition_key)))
  goes_to-cases st p x = elim (string_key.dec st x.stream) [
    | no ne ↦ inr (ground arith, inl ne)
    | yes e ↦ elim (nat_key.dec p (slot digest n x.partition_key)) [
      | yes f ↦ inl (ground arith, e, f)
      | no ne ↦ inr (ground arith, inr ne)
    ]
  ]

  abbrev Partitioned : Adapter P → Type 0
  Partitioned a = a.default_partitions ≡ max 1 (pos_part n)

  same_partition :
      (x : Publication P) (a : Adapter P)
      → Partitioned a
      → partition_of digest a.default_partitions x.partition_key ≡ slot digest n x.partition_key
  same_partition x a d =
      ap (λ m. partition_of digest m x.partition_key) d ∙ partition_of-slot digest n x.partition_key

  publish_one_here :
      (x : Publication P) (a : Adapter P) (st : String) (p : ℕ)
      → Partitioned a
      → st ≡ x.stream
      → p ≡ slot digest n x.partition_key
      → queue st p (publish_one digest x a)
        ≡ queue st p a ++ message st p (length (queue st p a)) x ∷ []
  unfolding publish_one publish
  publish_one_here x a st p d e f =
      let part = partition_of digest a.default_partitions x.partition_key in
      let q : p ≡ part = f ∙ sym (same_partition x a d) in
      let ms =
        queue x.stream part a ++ message x.stream part (length (queue x.stream part a)) x ∷ [] in
      rw (e, q) (queue-set_queue_self x.stream part ms a)

  publish_one_away :
      (x : Publication P) (a : Adapter P) (st : String) (p : ℕ)
      → Partitioned a
      → (st ≢ x.stream) ⊎ (p ≢ slot digest n x.partition_key)
      → queue st p (publish_one digest x a) ≡ queue st p a
  unfolding publish_one publish
  publish_one_away x a st p d (inl ne) = queue-set_queue_stream x.stream st _ p _ a ne
  publish_one_away x a st p d (inr ne) = elim (string_key.dec st x.stream) [
    | no other ↦ queue-set_queue_stream x.stream st _ p _ a other
    | yes e ↦ rw e (queue-set_queue_partition x.stream _ p _ a (λ f. ne (f ∙ same_partition x a d)))
  ]

  publish_one-partitions :
      (x : Publication P) (a : Adapter P)
      → (publish_one digest x a).default_partitions ≡ a.default_partitions
  unfolding publish_one publish
  publish_one-partitions x a = refl

  publish_all-append :
      (xs : List (Publication P)) (a : Adapter P) (st : String) (p : ℕ)
      → a.default_partitions ≡ max 1 (pos_part n)
      → queue st p (publish_all digest xs a)
        ≡ queue st p a ++ numbered st p (length (queue st p a)) (keep (goes_to digest n st p) xs)
  unfolding publish_all
  publish_all-append [] a st p d = sym (append-nil (queue st p a))
  publish_all-append (x ∷ xs) a st p d =
      let a' = publish_one digest x a in
      let q = queue st p a in
      let ih = publish_all-append xs a' st p (publish_one-partitions x a ∙ d) in
      elim (goes_to-cases st p x) [
        | inr (away, other) ↦ ih ∙ rw (publish_one_away x a st p d other, away) refl
        | inl (here, e, f) ↦
            let m = message st p (length q) x in
            let count : length (q ++ m ∷ []) ≡ suc (length q) =
              omega (arith, length-append q (m ∷ [])) in
            ih ∙ rw (publish_one_here x a st p d e f, here, count) (append_assoc q (m ∷ []) _)
      ]

-- After any publications into a new adapter, a partition of a stream holds just the messages published
-- to that stream whose keys belong to the partition, with what was published, in the order in which
-- they were published and numbered 0, 1, 2 and so on. A key belongs to the partition that its digest
-- gives modulo the number of partitions, which counts as one at least, and no key to the first one.
pub publish_all-queue :
    {P : Type 0} (digest : String → ℕ) (n : ℤ) (xs : List (Publication P)) (st : String) (p : ℕ)
    → queue st p (publish_all digest xs (init n))
      ≡ numbered st p 0 (keep (goes_to digest n st p) xs)
unfolding init
publish_all-queue digest n xs st p = publish_all-append digest n xs _ st p refl
