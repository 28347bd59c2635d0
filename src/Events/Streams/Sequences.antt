-- ===== src/Events/Streams/Sequences.antt =====
-- The messages of a partition are numbered from zero without gaps, after any publications.
use hexastack.Base.{
  ℕ, suc, ◌+◌, ◌≡◌, refl, ap, ◌∙◌, ◌≢◌, String, Option, List, [], ◌∷◌, ◌++◌, length, arith,
}
use hexastack.Base.Int.{pos}
use hexastack.Dict.{Dict, lookup, insert, string_key, nat_key, lookup-insert_self, lookup-insert_ne}
use hexastack.Events.Streams.{
  StreamMessage, Adapter, partition_of, or_empty, queue, set_queue, publish, init,
}

-- The arguments of one call of `publish`.
pub record Publication (P : Type 0) : Type 0 where
  pub id : String
  pub now : ℕ
  pub stream : String
  pub payload : P
  pub partition_key : Option String
  pub headers : Dict String String

module _ {P : Type 0} (digest : String → ℕ) where
  unfoldable pub publish_one : Publication P → Adapter P → Adapter P
  publish_one p a = (publish digest p.id p.now p.stream p.payload p.partition_key p.headers a).1

  unfoldable pub publish_all : List (Publication P) → Adapter P → Adapter P
  unfolding publish_one
  publish_all [] a = a
  publish_all (p ∷ ps) a = publish_all ps (publish_one p a)

module _ {P : Type 0} where
  -- The messages are those of the stream and the partition, numbered from `n` on.
  abbrev pub Numbered : String → ℕ → ℕ → List (StreamMessage P) → Type 0
  Numbered st p n [] = Unit
  Numbered st p n (m ∷ ms) =
      (m.stream ≡ st) × (m.partition ≡ p) × (m.sequence ≡ n) × Numbered st p (suc n) ms

  Numbered-append :
      (st : String) (p n : ℕ) (ms : List (StreamMessage P)) (m : StreamMessage P)
      → Numbered st p n ms
      → m.stream ≡ st
      → m.partition ≡ p
      → m.sequence ≡ n + length ms
      → Numbered st p n (ms ++ m ∷ [])
  Numbered-append st p n [] m h a b c = (a, b, omega arith, tt)
  Numbered-append st p n (x ∷ ms) m h a b c =
      (h.0, h.1, h.2, Numbered-append st p (suc n) ms m h.3 a b (omega arith))

  pub queue-set_queue_self :
      (st : String) (p : ℕ) (ms : List (StreamMessage P)) (a : Adapter P)
      → queue st p (set_queue st p ms a) ≡ ms
  queue-set_queue_self st p ms a =
      let parts = insert p ms (or_empty (lookup st a.streams)) in
      ap (λ o. or_empty (lookup p (or_empty o))) (lookup-insert_self st parts a.streams)
      ∙ ap or_empty (lookup-insert_self p ms (or_empty (lookup st a.streams)))

  pub queue-set_queue_stream :
      (st st' : String) (p p' : ℕ) (ms : List (StreamMessage P)) (a : Adapter P)
      → st' ≢ st
      → queue st' p' (set_queue st p ms a) ≡ queue st' p' a
  queue-set_queue_stream st st' p p' ms a n =
      ap (λ o. or_empty (lookup p' (or_empty o)))
        (lookup-insert_ne st' st (insert p ms (or_empty (lookup st a.streams))) a.streams n)

  pub queue-set_queue_partition :
      (st : String) (p p' : ℕ) (ms : List (StreamMessage P)) (a : Adapter P)
      → p' ≢ p
      → queue st p' (set_queue st p ms a) ≡ queue st p' a
  queue-set_queue_partition st p p' ms a n =
      let parts = insert p ms (or_empty (lookup st a.streams)) in
      ap (λ o. or_empty (lookup p' (or_empty o))) (lookup-insert_self st parts a.streams)
      ∙ ap or_empty (lookup-insert_ne p' p ms (or_empty (lookup st a.streams)) n)

  -- A property of the queues of all partitions is kept by a write that has it.
  queues_after :
      (Q : String → ℕ → List (StreamMessage P) → Type 0) (st : String) (p : ℕ)
      (ms : List (StreamMessage P)) (a : Adapter P)
      → ((st' : String) (p' : ℕ) → Q st' p' (queue st' p' a))
      → Q st p ms
      → (st' : String) (p' : ℕ) → Q st' p' (queue st' p' (set_queue st p ms a))
  queues_after Q st p ms a h q st' p' = elim (string_key.dec st' st) [
    | no n ↦ rw (queue-set_queue_stream st st' p p' ms a n) (h st' p')
    | yes e ↦ elim (nat_key.dec p' p) [
      | no n ↦ rw e (rw (queue-set_queue_partition st p p' ms a n) (h st p'))
      | yes f ↦ rw (e, f) (rw (queue-set_queue_self st p ms a) q)
    ]
  ]

module _ {P : Type 0} (digest : String → ℕ) where
  abbrev pub AllNumbered : Adapter P → Type 0
  AllNumbered a = (st : String) (p : ℕ) → Numbered st p 0 (queue st p a)

  publish_one-AllNumbered :
      (p : Publication P) (a : Adapter P) → AllNumbered a → AllNumbered (publish_one digest p a)
  unfolding publish_one publish
  publish_one-AllNumbered p a h =
      let part = partition_of digest a.default_partitions p.partition_key in
      queues_after (λ st p'. Numbered st p' 0) p.stream part _ a h
        (Numbered-append p.stream part 0 (queue p.stream part a) _ (h p.stream part) refl refl
          (omega arith))

  publish_all-AllNumbered :
      (ps : List (Publication P)) (a : Adapter P)
      → AllNumbered a
      → AllNumbered (publish_all digest ps a)
  unfolding publish_all
  publish_all-AllNumbered [] a h = h
  publish_all-AllNumbered (p ∷ ps) a h =
      publish_all-AllNumbered ps (publish_one digest p a) (publish_one-AllNumbered p a h)

-- The numbers alone, without a description of what is published.
publish_all-Numbered :
    {P : Type 0} (digest : String → ℕ) (n : ℕ) (ps : List (Publication P)) (st : String) (p : ℕ)
    → Numbered st p 0 (queue st p (publish_all digest ps (init (pos n))))
unfolding init
publish_all-Numbered digest n ps = publish_all-AllNumbered digest ps _ (λ st p. tt)
