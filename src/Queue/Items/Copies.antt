-- ===== src/Queue/Items/Copies.antt =====
-- What the copies into and out of the storage (`prvCopyDataToQueue`, `prvCopyDataFromQueue`) do to
-- the items that a queue holds.
use freertos_in_rust.Prelude.{
  ℕ, suc, ◌+◌, ◌-◌, ◌*◌, ◌<◌, ◌≡◌, refl, sym, ap, ◌∙◌, List, [], ◌∷◌, ◌++◌, arith, ◌==◌,
  if◌then◌else◌, length, copy_at, length-copy_at,
}
use mathlib.Core.Path.{ap₂}
use freertos_in_rust.Queue.{
  send_to_front, overwrite, Queue, next_item, previous_item, messages_before, copy_behind,
  copy_in_front, copy_data_from_queue,
}
use freertos_in_rust.Queue.Storage.{slot, wrap, ring, ring-back, ring-front}
use freertos_in_rust.Queue.Items.{Holds, add-one, messages-length, next_slot, previous_slot}

module _ {q : Queue} {items : List (List ℕ)} (h : Holds q items) (item : List ℕ)
    (l : length item ≡ q.item_size) where
  pub copy_behind-Holds : length items < q.len → Holds (copy_behind q item) (items ++ (item ∷ []))
  unfolding copy_behind
  copy_behind-Holds free =
      let m = q.messages_waiting in
      let at = wrap q.len (h.read_slot + 1) in
      let w = wrap q.len (at + m) in
      let p = messages-length h in
      let inside : at < q.len = ground (arith, h.read_in) in
      let w_in : w < q.len = ground (arith, inside) in
      record {
        no_mutex = h.no_mutex;
        sized = h.sized;
        room = h.room;
        whole = length-copy_at q.storage q.write_to item q.item_size ∙ h.whole;
        end = h.end;
        read_slot = h.read_slot;
        read_in = h.read_in;
        reads = h.reads;
        bounded = omega arith;
        writes =
            ap (next_item q) h.writes
            ∙ next_slot q w h.sized w_in h.end
            ∙ ap (λ i. i * q.item_size) (ground arith);
        held =
            ap₂ (λ to n. ring (copy_at q.storage to item q.item_size) q.item_size q.len at n)
              h.writes (add-one m)
            ∙ ring-back q.storage q.item_size q.len h.whole w at m item inside (omega arith) l refl
            ∙ ap (λ xs. xs ++ (item ∷ [])) h.held;
      }

  pub copy_in_front-Holds :
      length items < q.len → Holds (copy_in_front q item send_to_front) (item ∷ items)
  unfolding copy_in_front messages_before
  copy_in_front-Holds free =
      let m = q.messages_waiting in
      let r = h.read_slot in
      let r' = if r == 0 then q.len - 1 else r - 1 in
      let p = messages-length h in
      record {
        no_mutex = h.no_mutex;
        sized = h.sized;
        room = h.room;
        whole = length-copy_at q.storage q.read_from item q.item_size ∙ h.whole;
        end = h.end;
        read_slot = r';
        read_in = ground (arith, h.read_in);
        reads = ap (previous_item q) h.reads ∙ previous_slot q r h.sized h.read_in h.end;
        bounded = omega arith;
        writes = h.writes ∙ ap (λ i. i * q.item_size) (ground (arith, h.read_in));
        held =
            ap₂
              (λ to n.
                ring (copy_at q.storage to item q.item_size) q.item_size q.len (wrap q.len (r' + 1))
                  n)
              h.reads (add-one m)
            ∙ ap
                (λ i.
                  ring (copy_at q.storage (r * q.item_size) item q.item_size) q.item_size q.len i
                    (suc m))
                (ground (arith, h.read_in))
            ∙ ring-front q.storage q.item_size q.len h.whole r (wrap q.len (r + 1)) m item h.read_in
                (omega arith) l refl
            ∙ ap (λ xs. item ∷ xs) h.held;
      }

  -- An overwritten item takes the place of the one there was.
  pub overwrite-Holds : q.len ≡ 1 → Holds (copy_in_front q item overwrite) (item ∷ [])
  unfolding copy_in_front messages_before ring
  overwrite-Holds one =
      let first : h.read_slot ≡ 0 = omega (arith, h.read_in) in
      let counted : messages_before q overwrite + 1 ≡ 1 = ground (arith, h.bounded) in
      let start : wrap q.len (h.read_slot + 1) ≡ h.read_slot = ground arith in
      record {
        no_mutex = h.no_mutex;
        sized = h.sized;
        room = h.room;
        whole = length-copy_at q.storage q.read_from item q.item_size ∙ h.whole;
        end = h.end;
        read_slot = h.read_slot;
        read_in = h.read_in;
        reads =
            ap (previous_item q) h.reads
            ∙ previous_slot q h.read_slot h.sized h.read_in h.end
            ∙ ap (λ i. i * q.item_size) (ground arith);
        bounded = ground (arith, h.bounded);
        writes = h.writes ∙ ap (λ i. i * q.item_size) (ground (arith, h.bounded));
        held =
            ap₂
              (λ to n.
                ring (copy_at q.storage to item q.item_size) q.item_size q.len
                  (wrap q.len (h.read_slot + 1)) n)
              h.reads counted
            ∙ ap
                (λ i.
                  ring (copy_at q.storage (h.read_slot * q.item_size) item q.item_size) q.item_size
                    q.len i 1)
                start
            ∙ ring-front q.storage q.item_size q.len h.whole h.read_slot
                (wrap q.len (h.read_slot + 1)) 0 item h.read_in (omega arith) l refl;
      }

module _ {q : Queue} {item : List ℕ} {items : List (List ℕ)} (h : Holds q (item ∷ items)) where
  -- The oldest item is copied out, and the pointer moves on.
  pub copy_from-oldest :
      (r : Queue) × (copy_data_from_queue q ≡ (item, r))
      × Holds (record r { messages_waiting = q.messages_waiting - 1 }) items
      × (record r { read_from = q.read_from } ≡ q)
  unfolding copy_data_from_queue ring slot
  copy_from-oldest =
      let r = record q { read_from = next_item q q.read_from } in
      let moved : next_item q q.read_from ≡ wrap q.len (h.read_slot + 1) * q.item_size =
        ap (next_item q) h.reads ∙ next_slot q h.read_slot h.sized h.read_in h.end in
      let m : q.messages_waiting ≡ suc (length items) = messages-length h in
      let h' =
        ap (ring q.storage q.item_size q.len (wrap q.len (h.read_slot + 1))) (sym m) ∙ h.held in
      let oldest : slot q.storage q.item_size (wrap q.len (h.read_slot + 1)) ≡ item = cc h' in
      let rest : ring q.storage q.item_size q.len (wrap q.len (wrap q.len (h.read_slot + 1) + 1))
            (length items)
          ≡ items =
        cc h' in
      (
        r,
        ground (arith, h.sized),
        record {
          no_mutex = h.no_mutex;
          sized = h.sized;
          room = h.room;
          whole = h.whole;
          end = h.end;
          read_slot = wrap q.len (h.read_slot + 1);
          read_in = ground (arith, h.read_in);
          reads = moved;
          bounded = omega (arith, h.bounded);
          writes = h.writes ∙ ap (λ i. i * q.item_size) (ground (arith, h.read_in, h.bounded));
          held =
              ap (ring q.storage q.item_size q.len (wrap q.len (wrap q.len (h.read_slot + 1) + 1)))
                (omega arith)
              ∙ rest;
        },
        refl,
      )
