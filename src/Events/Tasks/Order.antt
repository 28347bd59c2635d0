-- ===== src/Events/Tasks/Order.antt =====
-- Who gets which task: a lease in force excludes every other worker, and `lease_next` picks the first
-- of the available tasks by priority, then by age.
use hexastack.Base.{
  max, ℕ, ◌+◌, ◌≤◌, ◌≡◌, refl, sym, ◌⊎◌, inl, inr, String, Bool, true, false, ◌||◌, Option, none,
  some, List, [], ◌∷◌, All, Member, All-keep, arith, String_discrete,
}
use hexastack.Base.Int.{◌≤ℤ◌}
use hexastack.Base.Sort.{sort_by, IsKeyOrder, sort_by-head, sort_by-nil}
use hexastack.Dict.{lookup, insert, values, string_key, All-lookup}
use hexastack.Events.Tasks.{
  TaskState, pending, leased, completed, failed, dead_lettered, TaskRecord, acquire_lease, Queue,
  expired_at, is_pending, is_lease_expired, mem_str, name_matches, is_available, candidates, before,
  lease_first, lease_next,
}
use hexastack.Events.Tasks.Leases.{IsValid, Candidate, sorted-Candidate}

mem_str-Member : (n : String) (ns : List String) → mem_str n ns ≡ true → Member n ns
mem_str-Member n [] h = absurd (ground arith)
mem_str-Member n (m ∷ ns) h = elim (String_discrete m n) [
  | yes e ↦ inl (sym e)
  | no ne ↦ inr (mem_str-Member n ns (ground (arith, h, ne)))
]

Member-mem_str : (n : String) (ns : List String) → Member n ns → mem_str n ns ≡ true
Member-mem_str n [] h = elim h [ ]
Member-mem_str n (m ∷ ns) (inl e) = ground (arith, e)
Member-mem_str n (m ∷ ns) (inr h) = ground (arith, Member-mem_str n ns h)

expired_at-le :
    (now : ℕ) (x : Option ℕ) → expired_at now x ≡ true → (e : ℕ) × (x ≡ some e) × (e ≤ now)
expired_at-le now none h = absurd (ground arith)
expired_at-le now (some e) h = (e, refl, ground arith)

module _ {P : Type 0} where
  -- The task is leased to `w` until `e`.
  pub record IsLeasedTo (q : Queue P) (t : TaskRecord P) (w : String) (e : ℕ) : Type 0 where
    pub found : lookup t.id q ≡ some t
    pub state : t.state ≡ leased
    pub owner : t.lease_owner ≡ some w
    pub expires : t.lease_expires_at ≡ some e

  before-IsKeyOrder : IsKeyOrder (before {P = P})
  before-IsKeyOrder = record { asym = λ x y h. ground arith; trans = λ x y z h k. ground arith }

  -- `r` may be taken where `c` waits: no lower priority, and created no later at the same priority.
  abbrev pub InOrder : TaskRecord P → TaskRecord P → Type 0
  InOrder r c = (c.priority ≤ℤ r.priority) × (c.priority ≡ r.priority → r.created_at ≤ c.created_at)

  before-InOrder : (c r : TaskRecord P) → before c r ≡ false → InOrder r c
  before-InOrder c r h = (ground arith, λ e. ground (arith, e))

  -- The task may be handed out: its name is among the given ones, if there are any, and it is pending, or
  -- leased with its lease run out.
  abbrev pub Wanted : Option (List String) → TaskRecord P → Type 0
  Wanted none t = Unit
  Wanted (some ns) t = Member t.task_name ns

  abbrev pub Waits : ℕ → TaskRecord P → Type 0
  Waits now t =
      (t.state ≡ pending)
      ⊎ ((t.state ≡ leased) × (e : ℕ) × (t.lease_expires_at ≡ some e) × (e ≤ now))

  abbrev pub IsFree : Queue P → Option (List String) → ℕ → TaskRecord P → Type 0
  IsFree q names now t = (lookup t.id q ≡ some t) × Wanted names t × Waits now t

  -- The free task `c` has been leased: what `lease_next` gives and leaves behind.
  abbrev pub Takes : TaskRecord P → String → ℕ → Option (TaskRecord P) × Queue P → Queue P → Type 0
  Takes c w until o q =
      let r = record c {
        state = leased;
        lease_owner = some w;
        lease_expires_at = some until;
        attempts = c.attempts + 1;
      } in
      (o.0 ≡ some r) × (o.1 ≡ insert c.id r q)

  name_matches-Wanted :
      (names : Option (List String)) (t : TaskRecord P)
      → name_matches names t ≡ true
      → Wanted names t
  name_matches-Wanted none t h = tt
  name_matches-Wanted (some ns) t h = mem_str-Member t.task_name ns h

  Wanted-name_matches :
      (names : Option (List String)) (t : TaskRecord P)
      → Wanted names t
      → name_matches names t ≡ true
  Wanted-name_matches none t h = refl
  Wanted-name_matches (some ns) t h = Member-mem_str t.task_name ns h

  waits : ℕ → TaskRecord P → Bool
  waits now t = is_pending t.state || is_lease_expired now t

  Waits-waits : (now : ℕ) (t : TaskRecord P) → Waits now t → waits now t ≡ true
  unfolding waits
  Waits-waits now t (inl e) = ground (arith, e)
  Waits-waits now t (inr (s, e, x, le)) = ground (arith, s, x, le)

  waits-Waits :
      (now : ℕ) (s : TaskState) (t : TaskRecord P) → t.state ≡ s → waits now t ≡ true → Waits now t
  unfolding waits
  waits-Waits now pending t e h = inl e
  waits-Waits now leased t e h =
      let (x, at, le) = expired_at-le now t.lease_expires_at (ground (arith, e, h)) in
      inr (e, x, at, le)
  waits-Waits now completed t e h = absurd (ground (arith, e, h))
  waits-Waits now failed t e h = absurd (ground (arith, e, h))
  waits-Waits now dead_lettered t e h = absurd (ground (arith, e, h))

  acquire_lease_waiting :
      (w : String) (d now later : ℕ) (t : TaskRecord P)
      → waits now t ≡ true
      → now ≤ later
      → acquire_lease w d later t ≡ (
        true,
        record t {
          state = leased;
          lease_owner = some w;
          lease_expires_at = some (later + max 100 d);
          attempts = t.attempts + 1;
        },
      )
  unfolding acquire_lease waits
  acquire_lease_waiting w d now later t h le = ground arith

  available_parts :
      (names : Option (List String)) (now : ℕ) (t : TaskRecord P)
      → is_available names now t ≡ true
      → (name_matches names t ≡ true) × (waits now t ≡ true)
  unfolding waits
  available_parts names now t h = (ground arith, ground arith)

  IsFree-available :
      (q : Queue P) (names : Option (List String)) (now : ℕ) (t : TaskRecord P)
      → IsFree q names now t
      → is_available names now t ≡ true
  IsFree-available q names now t (f, n, w) =
      let m = Wanted-name_matches names t n in
      let v : is_pending t.state || is_lease_expired now t ≡ true =
        unfold waits in (Waits-waits now t w) in
      rw (m, v) refl

  -- The first of the sorted candidates comes before every free task.
  head-InOrder :
      (q : Queue P) (names : Option (List String)) (now : ℕ) (t : TaskRecord P)
      (ts : List (TaskRecord P))
      → sort_by before (candidates names now q) ≡ t ∷ ts
      → (x : TaskRecord P) → IsFree q names now x
      → InOrder t x
  head-InOrder q names now t ts e x free = before-InOrder x t (
      All-lookup (λ y. is_available names now y ≡ true → before y t ≡ false) x.id x q free.0
        (All-keep (λ y. before y t ≡ false) (is_available names now) (values q)
          (sort_by-head before before-IsKeyOrder (candidates names now q) e))
        (IsFree-available q names now x free))

  lease_first-Takes :
      (q : Queue P) (w : String) (names : Option (List String)) (d now later : ℕ) (x : TaskRecord P)
      (ts : List (TaskRecord P))
      → sort_by before (candidates names now q) ≡ ts
      → All (Candidate q names now) ts
      → IsFree q names now x
      → now ≤ later
      → (c : TaskRecord P) × IsFree q names now c
        × Takes c w (later + max 100 d) (lease_first w d later ts q) q
        × ((y : TaskRecord P) → IsFree q names now y → InOrder c y)
  unfolding lease_first
  lease_first-Takes q w names d now later x [] e a free le =
      let nothing : candidates names now q ≡ [] = sort_by-nil before _ e in
      let none_passes : All (λ y. is_available names now y ≡ true → ⊥) (values q) =
        All-keep (λ y. ⊥) (is_available names now) (values q) (rw nothing tt) in
      absurd (
        All-lookup (λ y. is_available names now y ≡ true → ⊥) x.id x q free.0 none_passes
          (IsFree-available q names now x free))
  lease_first-Takes q w names d now later x (t ∷ ts) e a free le =
      let (named, waiting) = available_parts names now t a.0.0 in
      (
        t,
        (a.0.1, name_matches-Wanted names t named, waits-Waits now t.state t refl waiting),
        rw (acquire_lease_waiting w d now later t waiting le) (refl, refl),
        head-InOrder q names now t ts e,
      )

  -- If some task is free, that is, stored, of a wanted name, and pending or with a lease that has run out,
  -- then `lease_next` leases a free task to the worker, with one attempt more and until the duration, a
  -- tenth of a second at least, has passed; it returns the task as it now stands in the queue, and changes
  -- nothing else. No free task has a higher priority, or the same priority and an earlier creation.
  pub lease_next-Takes :
      (q : Queue P) (w : String) (names : Option (List String)) (d now later : ℕ) (x : TaskRecord P)
      → IsValid q
      → IsFree q names now x
      → now ≤ later
      → (c : TaskRecord P) × IsFree q names now c
        × Takes c w (later + max 100 d) (lease_next w names d now later q) q
        × ((y : TaskRecord P) → IsFree q names now y → InOrder c y)
  unfolding lease_next
  lease_next-Takes q w names d now later x v free le =
      lease_first-Takes q w names d now later x _ refl (sorted-Candidate q names now v) free le
