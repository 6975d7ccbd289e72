-- ===== src/StateSync/ConfigTree/Assignments/Tracking.antt =====
-- The invariant of `sync_config_tree` on assignment events, and each case of one event.
use doxa.Prelude.{
  ℕ, zero, suc, ◌≤◌, ◌<◌, ◌≡◌, refl, sym, ap, subst, ◌∙◌, true, false, List, [], ◌∷◌, none, some,
  arith, length, ltb, ◌==◌, if◌then◌else◌, Map, get, remove, insert, contains_key, member, is_some,
  dec_lt, Bool-cases, Option-cases, inl, inr, get-remove_self, get-remove_ne, get-insert_ne,
}
use doxa.Client.Keys.{nat_key, nat_sound}
use doxa.StateSync.State.{StateSyncState, SubpoolAssignedEvent}
use doxa.StateSync.ConfigTree.{register_subpool, take_buffered, drain_round, drain}

length-remove_le : {V : Type 0} (m : Map ℕ V) (k : ℕ) → length (remove m k) ≤ length m
length-remove_le [] k = omega arith
length-remove_le ((x, v) ∷ m) k = elim (Bool-cases (k == x)) [
  | inl same ↦ rw same (omega (arith, length-remove_le m k))
  | inr other ↦ rw other (omega (arith, length-remove_le m k))
]

length-remove_lt :
    {V : Type 0} (m : Map ℕ V) (k : ℕ) (v : V) → get m k ≡ some v → length (remove m k) < length m
length-remove_lt [] k v e = cc
length-remove_lt ((x, w) ∷ m) k v e = elim (Bool-cases (k == x)) [
  | inl same ↦ rw same (omega (arith, length-remove_le m k))
  | inr other ↦
      let deeper : get m k ≡ some v = ap (λ b. if b then some w else get m k) (sym other) ∙ e in
      rw other (omega (arith, length-remove_lt m k v deeper))
]

not_equal : (a b : ℕ) → a < b → (b == a) ≡ false
not_equal a b l = ground arith

not_equal_above : (a b : ℕ) → a < b → (a == b) ≡ false
not_equal_above a b l = ground arith

pub earlier : (a b : ℕ) → (a == b) ≡ false → ltb b a ≡ false → a < b
earlier a b e l = ground arith

equal : (a b : ℕ) → a ≡ b → (a == b) ≡ true
equal a b e = ground arith

-- What holds while events are processed: `seen` are the ids of the events so far.
pub record Tracks (seen : List ℕ) (s : StateSyncState) : Type 0 where
  pub positive : 0 < s.next_expected_subpool_id
  pub below : (id : ℕ) → 0 < id → id < s.next_expected_subpool_id → member id seen ≡ true
  pub buffered :
      (id : ℕ)
      → s.next_expected_subpool_id ≤ id
      → member id seen ≡ true
      → contains_key s.pending_subpool_assignments id ≡ true
  pub from_events :
      (id : ℕ) → contains_key s.pending_subpool_assignments id ≡ true → member id seen ≡ true

-- The next id is in the buffer, so its registration goes one further.
pub Tracks-take_buffered :
    (seen : List ℕ) (s : StateSyncState) (event : SubpoolAssignedEvent)
    → get s.pending_subpool_assignments s.next_expected_subpool_id ≡ some event
    → Tracks seen s
    → Tracks seen (take_buffered s event)
unfolding register_subpool
Tracks-take_buffered seen s event e t =
    let pending = s.pending_subpool_assignments in
    let next = s.next_expected_subpool_id in
    record {
      positive = omega (arith, t.positive);
      below = λ id p q. elim (dec_lt id next) [
        | yes less ↦ t.below id p less
        | no other ↦
            let same : next ≡ id = omega arith in
            ap (λ k. member k seen) (sym same) ∙ t.from_events next (ap is_some e)
      ];
      buffered = λ id p m.
          ap is_some (get-remove_ne pending next id (not_equal next id (omega arith)))
          ∙ t.buffered id (omega arith) m;
      from_events = λ id c. elim (Bool-cases (id == next)) [
        | inl same ↦
            let gone = ap is_some (get-remove_self pending next id (nat_sound id next same)) in cc
        | inr other ↦ t.from_events id (ap is_some (sym (get-remove_ne pending next id other)) ∙ c)
      ];
    }

no_entries : {V : Type 0} (m : Map ℕ V) (k : ℕ) → length m ≤ 0 → get m k ≡ none
no_entries [] k l = refl
no_entries (x ∷ m) k l = absurd (omega arith)

-- The next id is not in the buffer.
abbrev pub Drained : StateSyncState → Type 0
Drained s = get s.pending_subpool_assignments s.next_expected_subpool_id ≡ none

pub drain-Tracks :
    (fuel : ℕ) (seen : List ℕ) (s : StateSyncState)
    → length s.pending_subpool_assignments ≤ fuel
    → Tracks seen s
    → Tracks seen (drain fuel s) × Drained (drain fuel s)
unfolding drain register_subpool
drain-Tracks zero seen s l t =
    (t, no_entries s.pending_subpool_assignments s.next_expected_subpool_id l)
drain-Tracks (suc fuel) seen s l t =
    elim (Option-cases (get s.pending_subpool_assignments s.next_expected_subpool_id)) [
      | inl missing ↦
          subst (λ s'. Tracks seen s' × Drained s')
            (ap (λ o. drain_round o s (drain fuel)) (sym missing)) (t, missing)
      | inr (event, e) ↦
          subst (λ s'. Tracks seen s' × Drained s') (ap (λ o. drain_round o s (drain fuel)) (sym e))
            (drain-Tracks fuel seen (take_buffered s event)
              (omega (
                arith,
                length-remove_lt s.pending_subpool_assignments s.next_expected_subpool_id event e,
                l,
              ))
              (Tracks-take_buffered seen s event e t))
    ]

member_later : (id e : ℕ) (seen : List ℕ) → member id seen ≡ true → member id (e ∷ seen) ≡ true
member_later id e seen m = elim (Bool-cases (id == e)) [
  | inl same ↦ rw same
  | inr other ↦ rw other m
]

member_here : (id e : ℕ) (seen : List ℕ) → (id == e) ≡ true → member id (e ∷ seen) ≡ true
member_here id e seen same = rw same

member_other :
    (id e : ℕ) (seen : List ℕ)
    → (id == e) ≡ false
    → member id (e ∷ seen) ≡ true
    → member id seen ≡ true
member_other id e seen other m = ap (λ b. if b then true else member id seen) (sym other) ∙ m

-- An event of the expected id registers it.
pub Tracks-register :
    (seen : List ℕ) (s : StateSyncState) (id : ℕ)
    → (id == s.next_expected_subpool_id) ≡ true
    → Tracks seen s
    → Tracks (id ∷ seen) (register_subpool id s)
unfolding register_subpool
Tracks-register seen s id e t = record {
  positive = omega (arith, t.positive);
  below = λ k p q. elim (dec_lt k s.next_expected_subpool_id) [
    | yes less ↦ member_later k id seen (t.below k p less)
    | no other ↦
        let same : id ≡ s.next_expected_subpool_id = nat_sound id s.next_expected_subpool_id e in
        member_here k id seen (equal k id (omega (arith, same)))
  ];
  buffered = λ k p m.
      let same : id ≡ s.next_expected_subpool_id = nat_sound id s.next_expected_subpool_id e in
      t.buffered k (omega arith) (member_other k id seen (not_equal id k (omega (arith, same))) m);
  from_events = λ k c. member_later k id seen (t.from_events k c);
}

-- A later id is buffered.
pub Tracks-buffer :
    (seen : List ℕ) (s : StateSyncState) (id : ℕ) (event : SubpoolAssignedEvent)
    → s.next_expected_subpool_id < id
    → Tracks seen s × Drained s
    → Tracks
        (id ∷ seen)
        (record s { pending_subpool_assignments = insert s.pending_subpool_assignments id event })
      × (get (insert s.pending_subpool_assignments id event) s.next_expected_subpool_id ≡ none)
Tracks-buffer seen s id event l (t, d) =
    let pending = s.pending_subpool_assignments in
    (
      record {
        positive = t.positive;
        below = λ k p q. member_later k id seen (t.below k p q);
        buffered = λ k p m. elim (Bool-cases (k == id)) [
          | inl same ↦ rw same
          | inr other ↦
              ap is_some (get-insert_ne pending id k event other)
              ∙ t.buffered k p (member_other k id seen other m)
        ];
        from_events = λ k c. elim (Bool-cases (k == id)) [
          | inl same ↦ member_here k id seen same
          | inr other ↦
              member_later k id seen
                (t.from_events k (ap is_some (sym (get-insert_ne pending id k event other)) ∙ c))
        ];
      },
      get-insert_ne pending id s.next_expected_subpool_id event
            (not_equal_above s.next_expected_subpool_id id l)
          ∙ d,
    )

-- An earlier id changes nothing.
pub Tracks-earlier :
    (seen : List ℕ) (s : StateSyncState) (id : ℕ)
    → id < s.next_expected_subpool_id
    → Tracks seen s
    → Tracks (id ∷ seen) s
Tracks-earlier seen s id l t = record {
  positive = t.positive;
  below = λ k p q. member_later k id seen (t.below k p q);
  buffered = λ k p m. t.buffered k p (member_other k id seen (not_equal id k (omega arith)) m);
  from_events = λ k c. member_later k id seen (t.from_events k c);
}
