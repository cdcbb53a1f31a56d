-- ===== src/Tcp/Ooo.antt =====
-- `ooo_append` of src/tcp_engine.cpp: the cache of segments that arrive ahead of the stream.
-- A signed offset from the new segment's start is held 2 ^ 31 too high, so that it is a number:
-- `origin` stands for offset 0.
use tunio.Base.{
  ℕ, zero, suc, ◌+◌, ◌-◌, ◌%◌, ◌^◌, List, [], ◌∷◌, ◌++◌, Bool, true, false, ◌&&◌, ◌||◌, not, Option,
  none, some, u32, length, take, drop, min, max, ltb, leb, ◌==◌, if◌then◌else◌,
}
use tunio.Account.{reserve}
use tunio.Tcp.Types.{OooSegment, Sys}
use tunio.Tcp.Receive.{drop_packet}

abbrev pub Cache : Type 0
Cache = List (ℕ × OooSegment)

abbrev pub origin : ℕ
origin = 2 ^ 31

-- `static_cast<int32_t>(v - seq)`.
abbrev pub offset : ℕ → ℕ → ℕ
offset seq v = u32 (v + 2 ^ 32 - seq + origin)

-- `std::map`: an entry goes to its place by key; `emplace` keeps an entry that has the key.
unfoldable pub emplace : ℕ → OooSegment → Cache → Cache
emplace k g [] = (k, g) ∷ []
emplace k g ((j, h) ∷ m) =
    if k == j then (j, h) ∷ m else if ltb k j then (k, g) ∷ (j, h) ∷ m else (j, h) ∷ emplace k g m

unfoldable pub erase_segment : ℕ → Cache → Cache
erase_segment k [] = []
erase_segment k ((j, h) ∷ m) = if j == k then m else (j, h) ∷ erase_segment k m

unfoldable pub set_segment : ℕ → OooSegment → Cache → Cache
set_segment k g [] = []
set_segment k g ((j, h) ∷ m) = if j == k then (j, g) ∷ m else (j, h) ∷ set_segment k g m

unfoldable pub find_segment : ℕ → Cache → Option OooSegment
find_segment k [] = none
find_segment k ((j, h) ∷ m) = if j == k then some h else find_segment k m

abbrev pub with_fin : OooSegment → OooSegment
with_fin g = record g { fin = true }

-- The scan for a FIN without data: it may end a cached segment, or fall where it cannot be.
pub data FinPlace : Type 0 where
  free refused : FinPlace
  marks : Cache → FinPlace

abbrev pub behind : ℕ × OooSegment → FinPlace → FinPlace
behind x free = free
behind x refused = refused
behind x (marks m) = marks (x ∷ m)

unfoldable pub fin_scan : ℕ → Cache → FinPlace
fin_scan seq [] = free
fin_scan seq ((k, g) ∷ m) =
    let start = offset seq k in
    let end = start + length g.bytes in
    let rest = behind (k, g) (fin_scan seq m) in
    if end == origin
    then (if g.fin then refused else marks ((k, with_fin g) ∷ m))
    else if leb start origin && ltb origin end
    then refused
    else rest

-- The scan for data: how many of its bytes are cached, whether a FIN ends where it ends, whether it
-- touches a cached segment, and the last one without a FIN that ends where it ends.
pub record Overlap : Type 0 where
  pub overlap : ℕ
  pub fin_covered : Bool
  pub touches : Bool
  pub extension : Option ℕ

unfoldable pub scan_step : ℕ → ℕ → Overlap → ℕ × OooSegment → Overlap
scan_step seq len o (k, g) =
    let start = offset seq k in
    let end = start + length g.bytes in
    let lo = max start origin in
    let hi = min end (origin + len) in
    let at_end = end == origin + len in
    record {
      overlap = if ltb lo hi then o.overlap + (hi - lo) else o.overlap;
      fin_covered = o.fin_covered || (at_end && g.fin);
      touches = o.touches || (leb start (origin + len) && leb origin end);
      extension = if at_end && not g.fin then some k else o.extension;
    }

unfoldable pub scan : ℕ → ℕ → Overlap → Cache → Overlap
scan seq len o [] = o
scan seq len o (x ∷ m) = scan seq len (scan_step seq len o x) m

-- The trimming loop, over the entries as they stood before it: what an entry leaves of itself.
unfoldable pub trim_step : ℕ → ℕ → ℕ × OooSegment → Cache → Cache
trim_step seq len (k, g) m =
    let start = offset seq k in
    let old_len = length g.bytes in
    let end = start + old_len in
    let lo = max start origin in
    let hi = min end (origin + len) in
    let fin_inside = old_len == 0 && (g.fin && (leb origin start && ltb start (origin + len))) in
    if not (ltb lo hi) && not fin_inside
    then m
    else if ltb start origin && ltb (origin + len) end
    then emplace (u32 (seq + len))
        (record { bytes = drop (origin + len - start) g.bytes; fin = g.fin })
        (set_segment k (record { bytes = take (origin - start) g.bytes; fin = false }) m)
    else if ltb start origin
    then set_segment k (record { bytes = take (origin - start) g.bytes; fin = false }) m
    else if ltb (origin + len) end
    then emplace (u32 (seq + len)) (record g { bytes = drop (origin + len - start) g.bytes })
        (erase_segment k m)
    else erase_segment k m

unfoldable pub trim : ℕ → ℕ → Cache → Cache → Cache
trim seq len [] m = m
trim seq len (x ∷ xs) m = trim seq len xs (trim_step seq len x m)

abbrev pub end_of : ℕ → OooSegment → ℕ
end_of k g = u32 (k + length g.bytes)

-- The first other entry without a FIN that ends where the current one starts.
unfoldable pub find_left : ℕ → Cache → Option (ℕ × OooSegment)
find_left cur [] = none
find_left cur ((k, g) ∷ m) =
    if not (k == cur) && (not g.fin && end_of k g == cur) then some (k, g) else find_left cur m

-- One round of the merging loop; the number is the key of the current entry, and `none` ends the loop.
unfoldable pub merge_left : ℕ → OooSegment → Option (ℕ × OooSegment) → Cache → Option (ℕ × Cache)
merge_left cur c none m = none
merge_left cur c (some (k, g)) m =
    some
      (k, erase_segment cur (set_segment k (record { bytes = g.bytes ++ c.bytes; fin = c.fin }) m))

abbrev pub is_nil {ℓ} : {A : Type ℓ} → List A → Bool
is_nil [] = true
is_nil (x ∷ xs) = false

unfoldable pub merge_right : ℕ → OooSegment → ℕ → Option OooSegment → Cache → Option (ℕ × Cache)
merge_right cur c end none m = none
merge_right cur c end (some g) m =
    if end == cur
    then none
    else if c.fin
    then (if is_nil g.bytes && g.fin then some (cur, erase_segment end m) else none)
    else some (
      cur,
      erase_segment end (set_segment cur (record { bytes = c.bytes ++ g.bytes; fin = g.fin }) m),
    )

abbrev pub or_else {ℓ} : {A : Type ℓ} → Option A → Option A → Option A
or_else none o = o
or_else (some a) o = some a

unfoldable pub merge_round : ℕ → Option OooSegment → Cache → Option (ℕ × Cache)
merge_round cur none m = none
merge_round cur (some c) m =
    or_else (merge_left cur c (find_left cur m) m)
      (merge_right cur c (end_of cur c) (find_segment (end_of cur c) m) m)

-- Each round removes an entry, so the number of entries bounds the rounds.
unfoldable pub merge_loop : ℕ → ℕ → Cache → Cache
merge_loop zero cur m = m
merge_loop (suc fuel) cur m = elim (merge_round cur (find_segment cur m) m) [
  | none ↦ m
  | some (next, m') ↦ merge_loop fuel next m'
]

abbrev pub set_cache : Sys → Cache → ℕ → Sys
set_cache s m n = record s {
  flow = record s.flow { ooo = record { segments = m; ooo_bytes = n; ooo_count = length m } };
}

-- Only the cache, its counters left as they are.
abbrev pub touch_cache : Sys → Cache → Sys
touch_cache s m = record s { flow = record s.flow { ooo = record s.flow.ooo { segments = m } } }

unfoldable pub append_fin : Sys → ℕ → FinPlace → Sys × Bool
append_fin s seq refused = (s, false)
append_fin s seq (marks m) = (touch_cache s m, true)
append_fin s seq free =
    if leb s.eng.cfg.tcp_ooo_max_segments (length s.flow.segments)
    then (drop_packet s, false)
    else (
      set_cache s (emplace seq (record { bytes = []; fin = true }) s.flow.segments)
          s.flow.ooo_bytes,
      true,
    )

-- Data that are all cached already: at most their FIN is new.
unfoldable pub append_known : Sys → Option ℕ → Bool → Sys × Bool
append_known s none wanted = (s, false)
append_known s (some k) wanted =
    if wanted
    then (elim (find_segment k s.flow.segments) [
      | none ↦ (s, false)
      | some g ↦ (touch_cache s (set_segment k (with_fin g) s.flow.segments), true)
    ])
    else (s, false)

-- The new data replace what they overlap, and merge with their neighbours.
unfoldable pub insert_segment : ℕ → OooSegment → Cache → Cache
insert_segment seq g m =
    let placed = emplace seq g (trim seq (length g.bytes) m m) in
    merge_loop (length placed) seq placed

unfoldable pub append_data : Sys → ℕ → List ℕ → Bool → Overlap → Sys × Bool
append_data s seq bytes fin o =
    let net_add = (length bytes + 2 ^ 64 - o.overlap) % 2 ^ 64 in
    let f = s.flow in
    if net_add == 0
    then append_known s o.extension (fin && not o.fin_covered)
    else if (leb s.eng.cfg.tcp_ooo_max_segments (length f.segments) && not o.touches)
        || ltb s.eng.cfg.max_rx_queue_per_flow (f.rx_bytes + f.ooo_bytes + net_add)
    then (drop_packet s, false)
    else (let (account, fits) = reserve s.eng.account net_add in
        if fits
        then (
          set_cache (record s { eng = record s.eng { account = account } })
              (insert_segment seq (record { bytes = bytes; fin = fin || o.fin_covered }) f.segments)
              (f.ooo_bytes + net_add),
          true,
        )
        else (drop_packet s, false))

abbrev pub no_overlap : Overlap
no_overlap = record { overlap = 0; fin_covered = false; touches = false; extension = none }

unfoldable pub ooo_append : Sys → ℕ → List ℕ → Bool → Sys × Bool
ooo_append s seq bytes fin =
    if length bytes == 0
    then (if fin then append_fin s seq (fin_scan seq s.flow.segments) else (s, false))
    else append_data s seq bytes fin (scan seq (length bytes) no_overlap s.flow.segments)
