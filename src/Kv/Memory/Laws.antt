-- ===== src/Kv/Memory/Laws.antt =====
-- The in-memory service keeps the laws of the interface.
use jetauth.Prelude.{
  Text, str, starts_with, contains_text, text_beq_refl, text_beq_iff, contains, Bool-cases, ok, err,
  ℕ, refl, ap, inl, inr, Bool, true, false, Option, none, some, List, [], arith, strip_prefix, ◌+◌,
  ◌≡◌, ◌≢◌, ◌∷◌, ◌++◌, ◌==◌, if◌then◌else◌, nat_eq, text_eq,
}
use jetauth.Kv.{Write, put, create, cas, delete, cas_delete, revision, Applies, IsTable, Kv}
use jetauth.Kv.Memory.{
  Table, full_key, cons_some, find, remove, insert, get, write_at, write, matching, prefix_keys,
}

pub full_key_inj : (t k j : Text) → full_key t k ≡ full_key t j → k ≡ j
full_key_inj [] k j e = cc
full_key_inj (a ∷ t) k j e = full_key_inj t k j (cc)

pub full_key_tables : (t u k j : Text) → IsTable t → IsTable u → full_key t k ≡ full_key u j → t ≡ u
full_key_tables [] [] k j ht hu e = refl
full_key_tables [] (b ∷ u) k j ht (n, hu) e = ground arith
full_key_tables (a ∷ t) [] k j (n, ht) hu e = ground arith
full_key_tables (a ∷ t) (b ∷ u) k j (_, ht) (_, hu) e =
    ground (arith, full_key_tables t u k j ht hu)

module _ {Payload : Type 0} where
  find-remove :
      (k j : Text) (m : Table Payload) → find j (remove k m) ≡ (if k == j then none else find j m)
  unfolding find remove
  find-remove k j [] = ground arith
  find-remove k j ((i, v) ∷ m) =
      ground (arith, find-remove k j m, text_beq_iff i k, text_beq_iff i j, text_beq_iff k j)

  find-insert :
      (k j : Text) (v : Payload × ℕ) (m : Table Payload)
      → find j (insert k v m) ≡ (if k == j then some v else find j m)
  unfolding find insert
  find-insert k j v m = ground (arith, find-remove k j m)

  find-remove_self : (k : Text) (m : Table Payload) → find k (remove k m) ≡ none
  find-remove_self k m = ground (arith, find-remove k k m, text_beq_refl k)

  find-insert_self :
      (k : Text) (v : Payload × ℕ) (m : Table Payload) → find k (insert k v m) ≡ some v
  find-insert_self k v m = ground (arith, find-insert k k v m, text_beq_refl k)

  -- A write at `k` leaves every other key alone.
  pub write_at_frame :
      (w : Write Payload) (k j : Text) (old : Option (Payload × ℕ)) (m : Table Payload)
      → k ≢ j
      → find j (write_at w k old m).1 ≡ find j m
  unfolding write_at
  write_at_frame (put v l) k j old m n =
      ground (arith, find-insert k j (v, revision old + 1) m, text_beq_iff k j)
  write_at_frame (create v l) k j none m n =
      ground (arith, find-insert k j (v, 1) m, text_beq_iff k j)
  write_at_frame (create v l) k j (some _) m n = refl
  write_at_frame (cas v e l) k j old m n =
      ground (arith, find-insert k j (v, e + 1) m, text_beq_iff k j)
  write_at_frame delete k j old m n = ground (arith, find-remove k j m, text_beq_iff k j)
  write_at_frame (cas_delete e) k j old m n = ground (arith, find-remove k j m, text_beq_iff k j)

  write_at_done :
      (w : Write Payload) (k : Text) (old : Option (Payload × ℕ)) (m : Table Payload) (r : ℕ)
      → (write_at w k old m).0 ≡ ok r
      → Applies w r old (find k (write_at w k old m).1)
  unfolding write_at
  write_at_done (put v l) k old m r e =
      (ground arith, ground (arith, find-insert_self k (v, revision old + 1) m))
  write_at_done (create v l) k none m r e =
      (refl, ground arith, ground (arith, find-insert_self k (v, 1) m))
  write_at_done (create v l) k (some _) m r e = cc
  write_at_done (cas v x l) k none m r e =
      (ground arith, ground arith, ground (arith, find-insert_self k (v, x + 1) m))
  write_at_done (cas v x l) k (some (p, c)) m r e =
      (ground arith, ground arith, ground (arith, find-insert_self k (v, x + 1) m))
  write_at_done delete k old m r e = find-remove_self k m
  write_at_done (cas_delete x) k none m r e = cc
  write_at_done (cas_delete x) k (some (p, c)) m r e =
      ((p, ground arith), ground (arith, find-remove_self k m))

  write_at_failed :
      (w : Write Payload) (k : Text) (old : Option (Payload × ℕ)) (m : Table Payload) (e : Text)
      → (write_at w k old m).0 ≡ err e
      → (write_at w k old m).1 ≡ m
  unfolding write_at
  write_at_failed (put v l) k old m e h = cc
  write_at_failed (create v l) k none m e h = cc
  write_at_failed (create v l) k (some _) m e h = refl
  write_at_failed (cas v x l) k old m e h = ground arith
  write_at_failed delete k old m e h = cc
  write_at_failed (cas_delete x) k old m e h = ground arith

starts_with-full_key : (t k p : Text) → starts_with (full_key t k) (full_key t p) ≡ starts_with k p
unfolding starts_with
starts_with-full_key [] k p = ground arith
starts_with-full_key (a ∷ t) k p = ground (arith, starts_with-full_key t k p)

strip_prefix-full_key : (t k : Text) → strip_prefix (t ++ b':' ∷ []) (full_key t k) ≡ some k
unfolding strip_prefix
strip_prefix-full_key [] k = ground arith
strip_prefix-full_key (a ∷ t) k = ground (arith, strip_prefix-full_key t k)

module _ {Payload : Type 0} where
  matching_listed :
      (t p k : Text) (m : Table Payload)
      → starts_with k p ≡ true
      → find (full_key t k) m ≢ none
      → contains (matching t p m) k ≡ true
  unfolding find matching
  matching_listed t p k [] h n = absurd (n refl)
  matching_listed t p k ((j, v) ∷ m) h n = elim (Bool-cases (j == full_key t k)) [
    | inl same ↦
        let e : j ≡ full_key t k = (text_beq_iff _ _).0 same in
        rw (e, starts_with-full_key t k p, h, strip_prefix-full_key t k)
          (unfold contains in ground (arith, text_beq_refl k))
    | inr other ↦
        later (starts_with j (full_key t p)) (strip_prefix (t ++ b':' ∷ []) j)
          (matching_listed t p k m h (λ e. n (rw other e)))
  ]
    where
      later :
          (b : Bool) (o : Option Text)
          → contains (matching t p m) k ≡ true
          → contains (if b then cons_some o (matching t p m) else matching t p m) k ≡ true
      later true none h = h
      later true (some i) h = unfold contains in ground arith
      later false o h = h

  pub get_done :
      (t k : Text) (m : Table Payload) (p : Payload × ℕ)
      → get t k m ≡ ok p
      → find (full_key t k) m ≡ some p
  unfolding get
  get_done t k m p h = ground arith

  pub get_absent :
      (t k : Text) (m : Table Payload) (e : Text)
      → get t k m ≡ err e
      → contains_text e (str "not found") ≡ true
      → find (full_key t k) m ≡ none
  unfolding get
  get_absent t k m e h _ = ground arith

  pub write_lem :
      (w : Write Payload) (t k : Text) (m : Table Payload)
      → write w t k m ≡ write_at w (full_key t k) (find (full_key t k) m) m
  unfolding write
  write_lem w t k m = refl

  pub write_done :
      (w : Write Payload) (t k : Text) (m : Table Payload) (r : ℕ)
      → (write w t k m).0 ≡ ok r
      → Applies w r (find (full_key t k) m) (find (full_key t k) (write w t k m).1)
  write_done w t k m r h =
      rw write_lem (write_at_done w (full_key t k) (find (full_key t k) m) m r (rw write_lem at h))

  pub write_failed :
      (w : Write Payload) (t k : Text) (m : Table Payload) (e : Text)
      → (write w t k m).0 ≡ err e
      → (write w t k m).1 ≡ m
  write_failed w t k m e h =
      rw write_lem
        (write_at_failed w (full_key t k) (find (full_key t k) m) m e (rw write_lem at h))

  pub prefix_done :
      (t p k : Text) (m : Table Payload) (ks : List Text)
      → prefix_keys t p m ≡ ok ks
      → starts_with k p ≡ true
      → find (full_key t k) m ≢ none
      → contains ks k ≡ true
  prefix_done t p k m ks e h n =
      let same : matching t p m ≡ ks = unfold prefix_keys in cc e in
      rw (← same) (matching_listed t p k m h n)

-- The in-memory service as an implementation of the interface.
abbrev pub memory : (Payload : Type 0) → Kv Payload
memory Payload = record {
  State = Table Payload;
  view = λ m t k. find (full_key t k) m;
  get = get;
  write = write;
  prefix_keys = prefix_keys;
  get_found = get_done;
  get_missing = get_absent;
  write_done = write_done;
  write_failed = λ w t k m e h. inl (ap (find (full_key t k)) (write_failed w t k m e h));
  write_frame = λ w t k j m n.
      rw write_lem
        (write_at_frame w (full_key t k) (full_key t j) _ m (λ e. n (full_key_inj t k j e)));
  write_tables = λ w t u k j m ht hu n. rw write_lem (
      write_at_frame w (full_key t k) (full_key u j) _ m
        (λ e. n (full_key_tables t u k j ht hu e)));
  prefix_listed = λ t p k m ks e h n. prefix_done t p k m ks e h n;
}
