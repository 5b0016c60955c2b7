-- ===== src/Harmoniser/LevelStore/Ranges.antt =====
-- harmoniser.go on leveldbstore.go: the ranges of blocks that are missing, in the database.
use wineventchain.Common.{
  ℕ, suc, ◌<◌, ◌≤◌, ◌≡◌, ◌≢◌, refl, ap, sym, ◌∙◌, ◌⊎◌, inl, inr, true, false, List, ok, length,
  drop, arith, subst, ok_injective, drop-append,
}
use wineventchain.Store.Codec.{BlockRange}
use wineventchain.Store.LevelDb.{LevelDb, LevelDbLaws, optional, with_transaction}
use wineventchain.Store.Ids.{get_next_key, read_counter, with_incrementing_id}
use wineventchain.Store.Order.{less, less_irreflexive, not_beyond, not_later, Room-fewer}
use wineventchain.Store.Blocks.{
  key_last_seen_block_height, key_missing_blocks_id_counter, key_prefix_missing_blocks,
  encode_range, last_seen_block_height, add_missing_blocks,
}
use wineventchain.Harmoniser.LevelStore.{
  LevelDbWorks, Ready, Missing, add_range, level_store, range_key, last_of, same_counter, same_last,
  last_not_counter, last_not_range, counter_not_range, set_last_seen_block_height-Ready,
}
use wineventchain.Harmoniser.Coverage.{BlockStoreLaws}

module _ (db : LevelDb) (laws : LevelDbLaws db) (works : LevelDbWorks db) where
  abbrev key_of : List ℕ → List ℕ
  key_of = range_key db laws works

  -- What AddMissingBlocks does to the database.
  record Added (s s' : db.State) (id : List ℕ) (r : BlockRange) : Type 0 where
    counted : db.get s' key_missing_blocks_id_counter ≡ ok id
    stored : db.get s' (key_of id) ≡ ok (encode_range r)
    others :
        (k : List ℕ) → key_missing_blocks_id_counter ≢ k → key_of id ≢ k → db.get s' k ≡ db.get s k

  add_range-Added :
      (s : db.State) (counter : List ℕ) (l h : ℕ)
      → read_counter db s key_missing_blocks_id_counter ≡ ok counter
      → (s' : db.State) × (add_range db laws works s l h ≡ ok s')
        × Added s s' (get_next_key counter) (record { low = l; high = h })
  unfolding add_range add_missing_blocks with_incrementing_id with_transaction
  add_range-Added s counter l h counted =
      let r : BlockRange = record { low = l; high = h } in
      let id = get_next_key counter in
      let (tx, opened) = works.open_works s in
      let (tx1, e1) = works.put_works tx key_missing_blocks_id_counter id in
      let (tx2, e2) = works.put_works tx1 (key_of id) (encode_range r) in
      let (s', committed) = works.commit_works s tx2 in
      let found =
        same_counter db laws works s tx (laws.get_open s tx key_missing_blocks_id_counter opened)
        ∙ counted in
      (
        s',
        ground (arith, opened, found, e1, e2, committed),
        record {
          counted =
              laws.get_commit s tx2 s' key_missing_blocks_id_counter committed
              ∙ laws.get_put_ne tx1 tx2 (key_of id) (encode_range r) key_missing_blocks_id_counter
                  e2 (λ same. counter_not_range db laws works id (sym same))
              ∙ laws.get_put tx tx1 key_missing_blocks_id_counter id e1;
          stored =
              laws.get_commit s tx2 s' (key_of id) committed
              ∙ laws.get_put tx1 tx2 (key_of id) (encode_range r) e2;
          others = λ k n m.
              laws.get_commit s tx2 s' k committed
              ∙ laws.get_put_ne tx1 tx2 (key_of id) (encode_range r) k e2 m
              ∙ laws.get_put_ne tx tx1 key_missing_blocks_id_counter id k e1 n
              ∙ laws.get_open s tx k opened;
        },
      )

  counter_of :
      (s : db.State) (id : List ℕ)
      → length id ≡ 16
      → db.get s key_missing_blocks_id_counter ≡ ok id
      → read_counter db s key_missing_blocks_id_counter ≡ ok id
  unfolding read_counter optional
  counter_of s id size e = rw (e, size) refl

  same_id : (id d : List ℕ) → key_of d ≡ key_of id → d ≡ id
  same_id id d h =
      sym (drop-append 15 key_prefix_missing_blocks d refl)
      ∙ ap (drop 15) h
      ∙ drop-append 15 key_prefix_missing_blocks id refl

  Added-Missing :
      (s s' : db.State) (counter id : List ℕ) (r : BlockRange) (b : ℕ)
      → read_counter db s key_missing_blocks_id_counter ≡ ok counter
      → length id ≡ 16
      → less counter id ≡ true
      → Added s s' id r
      → Missing db laws works s b ⊎ ((r.low ≤ b) × (b < r.high))
      → Missing db laws works s' b
  Added-Missing s s' counter id r b counted size later a (inl m) =
      let same : m.counter ≡ counter = ok_injective (sym m.counted ∙ counted) in
      let given = subst (λ c. less c m.id ≡ false) same m.given in
      record {
        counter = id;
        counted = counter_of s' id size a.counted;
        id = m.id;
        given = not_beyond m.id counter id given later;
        block_range = m.block_range;
        stored =
            a.others (key_of m.id) (counter_not_range db laws works m.id)
              (λ h. not_later m.id counter id given later (same_id m.id id h))
            ∙ m.stored;
        from = m.from;
        below = m.below;
      }
  Added-Missing s s' counter id r b counted size later a (inr new) = record {
    counter = id;
    counted = counter_of s' id size a.counted;
    id = id;
    given = less_irreflexive id;
    block_range = r;
    stored = a.stored;
    from = new.0;
    below = new.1;
  }

  add_range-Ready :
      (s : db.State) (n l h : ℕ)
      → Ready db laws works s (suc n)
      → (s' : db.State) × (add_range db laws works s l h ≡ ok s')
        × Ready db laws works s' n
        × ((b : ℕ) → Missing db laws works s b ⊎ ((l ≤ b) × (b < h)) → Missing db laws works s' b)
  add_range-Ready s n l h ready =
      let (size, later, room) = ready.room in
      let id = get_next_key ready.counter in
      let (s', e, a) = add_range-Added s ready.counter l h ready.counted in
      (
        s',
        e,
        record {
          counter = id;
          counted = counter_of s' id size a.counted;
          room = room;
          seen = ready.seen;
          read =
              same_last db laws works s s' (
                a.others key_last_seen_block_height (λ h. last_not_counter db laws works (sym h))
                  (λ h. last_not_range db laws works id (sym h)))
              ∙ ready.read;
        },
        λ b.
            Added-Missing s s' ready.counter id (record { low = l; high = h }) b ready.counted size
              later a,
      )

  -- The store of the node keeps the laws that the listener relies on.
  pub level_store_laws : BlockStoreLaws (level_store db laws works)
  level_store_laws = record {
    Ready = Ready db laws works;
    Missing = Missing db laws works;
    last = λ s. last_of db laws works (last_seen_block_height db s);
    fewer = λ s n r. record {
      counter = r.counter;
      counted = r.counted;
      room = Room-fewer r.counter n r.room;
      seen = r.seen;
      read = r.read;
    };
    last_seen_lem = λ s n r. r.read ∙ ap (λ o. ok (last_of db laws works o)) (sym r.read);
    set_works = set_last_seen_block_height-Ready db laws works;
    add_works = λ s n l h ready small high. add_range-Ready s n l h ready;
  }
