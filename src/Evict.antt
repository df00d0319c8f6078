-- ===== src/Evict.antt =====
-- The sweeps over the content cache, internal/fuse/cache.go: what is idle goes, then what was read
-- longest ago, until the cache is under its cap. Files with queued edits and running downloads stay.
-- Names and times of files are what the directory walk finds.
pub mod Usage
pub mod Pass
pub mod Scan
pub mod Sort
pub mod Ageing
pub mod Bounded
mod Samples
use livegit.Prelude.{
  ℕ, ◌+◌, ◌-◌, ◌*◌, ◌^◌, Bool, true, false, not, ◌&&◌, ◌||◌, List, [], ◌∷◌, Bytes, codes, ◌==◌,
  bytes_eq, if◌then◌else◌, ltb, leb, filter, nat_eq,
}
use livegit.Paths.{rel, base, has_prefix}
use livegit.Journal.{Journal, has_pending}
use livegit.Backend.{Backend, CachedFile, Cache, drop_content}
use livegit.Fetch.{Fetches, fetch_active}

-- `cachedFile`
pub record Scanned : Type 0 where
  pub rel : Bytes
  pub size : ℕ
  pub atime : ℕ

-- When a file was last read, whether its metadata can be had, and whether os.Remove of it goes well.
pub record SweepIo : Type 0 where
  pub now : ℕ
  pub atime : Bytes → ℕ
  pub info_ok : Bytes → Bool
  pub remove_ok : Bytes → Bool

abbrev pub tmp_suffix : Bytes
tmp_suffix = codes ".lg-tmp"

-- strings.Contains(s, sub)
unfoldable pub contains : Bytes → Bytes → Bool
contains [] sub = has_prefix [] sub
contains (c ∷ s) sub = has_prefix (c ∷ s) sub || contains s sub

-- strings.TrimSuffix(s, suffix), for a suffix that is not empty
unfoldable pub trim_suffix : Bytes → Bytes → Bytes
trim_suffix [] suffix = []
trim_suffix (c ∷ s) suffix =
    let rest = trim_suffix s suffix in if (c ∷ s) == suffix then [] else c ∷ rest

-- What the walk of `scanCache` leaves out: staging, and files that cannot be asked.
unfoldable pub hidden : SweepIo → Bytes → Bool
unfolding contains
hidden io p = contains (base p) tmp_suffix || not (io.info_ok p)

-- The files of `scanCache`.
unfoldable pub scan_cache : SweepIo → Cache → List Scanned
scan_cache io [] = []
scan_cache io ((p, f) ∷ files) =
    let rest = scan_cache io files in
    if hidden io p then rest else record { rel = rel p; size = f.size; atime = io.atime p } ∷ rest

-- The bytes that `scanCache` counts.
unfoldable pub scan_total : List Scanned → ℕ
scan_total [] = 0
scan_total (f ∷ files) = f.size + scan_total files

-- `CacheUsage`
unfoldable pub cache_usage : SweepIo → Backend → ℕ
unfolding scan_cache scan_total
cache_usage io b = scan_total (scan_cache io b.cache)

-- The bytes of the path may go, and os.Remove lets them.
unfoldable pub can_evict : SweepIo → Fetches → Journal → Bytes → Bool
can_evict io running j p = not (has_pending p j || fetch_active p running) && io.remove_ok p

-- `evict` in `EvictOnce`
unfoldable pub evict : SweepIo → Fetches → Scanned → Backend → Backend × Bool
unfolding can_evict
evict io running f b =
    if has_pending f.rel b.journal || fetch_active f.rel running
    then (b, false)
    else if not (io.remove_ok f.rel)
    then (b, false)
    else (drop_content f.rel b, true)

-- The state of a sweep: the bytes that are left, and the backend.
abbrev pub Swept : Type 0
Swept = ℕ × Backend

-- One file of the idle pass: whether it went, and the state.
unfoldable pub idle_step : SweepIo → Fetches → ℕ → Scanned → Swept → Bool × Swept
unfolding evict
idle_step io running cutoff f (total, b) =
    let (b', gone) = evict io running f b in
    if ltb f.atime cutoff && gone then (true, (total - f.size, b')) else (false, (total, b))

-- The idle pass: the files kept, and the state.
unfoldable pub idle_pass : SweepIo → Fetches → ℕ → List Scanned → Swept → List Scanned × Swept
unfolding idle_step
idle_pass io running cutoff [] s = ([], s)
idle_pass io running cutoff (f ∷ files) s =
    let (gone, s') = idle_step io running cutoff f s in
    let (kept, end) = idle_pass io running cutoff files s' in (if gone then kept else f ∷ kept, end)

-- sort.Slice by access time; files read at the same time come in any order, here the walk's.
unfoldable pub insert_by_atime : Scanned → List Scanned → List Scanned
insert_by_atime f [] = f ∷ []
insert_by_atime f (g ∷ files) =
    if ltb g.atime f.atime then g ∷ insert_by_atime f files else f ∷ g ∷ files

unfoldable pub sort_by_atime : List Scanned → List Scanned
unfolding insert_by_atime
sort_by_atime [] = []
sort_by_atime (f ∷ files) = insert_by_atime f (sort_by_atime files)

-- One file of the last loop of `EvictOnce`.
unfoldable pub cap_step : SweepIo → Fetches → Scanned → Swept → Swept
unfolding evict
cap_step io running f (total, b) =
    let (b', gone) = evict io running f b in if gone then (total - f.size, b') else (total, b)

-- The last loop of `EvictOnce`.
unfoldable pub cap_pass : SweepIo → Fetches → ℕ → List Scanned → Swept → Swept
unfolding cap_step
cap_pass io running limit [] s = s
cap_pass io running limit (f ∷ files) s =
    let rest = cap_pass io running limit files (cap_step io running f s) in
    if leb s.0 limit then s else rest

-- `capBytes`, without the override of tests
unfoldable pub cap_bytes : ℕ → ℕ
cap_bytes gigabytes = gigabytes * 2 ^ 30

-- A cap of zero is none.
unfoldable pub enforce_cap : SweepIo → Fetches → ℕ → List Scanned × Swept → Swept
unfolding cap_pass sort_by_atime
enforce_cap io running limit w =
    if limit == 0 || leb w.1.0 limit then w.1 else cap_pass io running limit (sort_by_atime w.0) w.1

-- The scan and the idle pass, with the minutes of the configuration, where zero is never.
unfoldable pub drop_idle : SweepIo → Fetches → ℕ → Backend → List Scanned × Swept
unfolding idle_pass scan_cache scan_total
drop_idle io running idle_min b =
    let files = scan_cache io b.cache in
    let start : Swept = (scan_total files, b) in
    if idle_min == 0
    then (files, start)
    else idle_pass io running (io.now - idle_min * 60) files start

-- The path that a staging file or a sidecar is for.
unfoldable pub staged_for : Bytes → Bytes
unfolding trim_suffix
staged_for path = rel (trim_suffix (trim_suffix path (codes ".id")) tmp_suffix)

-- What the loop over the staging of `EvictOnce` removes, by its path in the cache directory: its name
-- alone says that it is staging.
unfoldable pub is_stale : SweepIo → Fetches → ℕ → Bytes → Bool
unfolding staged_for contains
is_stale io running cutoff p =
    contains (base p) tmp_suffix
    && (not (fetch_active (staged_for p) running)
        && (io.info_ok p && (ltb (io.atime p) cutoff && io.remove_ok p)))

-- The loop over the staging of `EvictOnce`
unfoldable pub age_staging : SweepIo → Fetches → ℕ → Cache → Cache
unfolding is_stale
age_staging io running idle_min c =
    if idle_min == 0
    then c
    else filter (λ e. not (is_stale io running (io.now - idle_min * 60) e.0)) c

abbrev pub aged : SweepIo → Fetches → ℕ → List Scanned × Swept → List Scanned × Swept
aged io running idle_min (files, (total, b)) =
    (files, (total, record b { cache = age_staging io running idle_min b.cache }))

-- `EvictOnce`, with the cap in bytes.
unfoldable pub evict_once : SweepIo → Fetches → ℕ → ℕ → Backend → Swept
unfolding enforce_cap age_staging drop_idle
evict_once io running idle_min limit b =
    enforce_cap io running limit (aged io running idle_min (drop_idle io running idle_min b))
