-- ===== src/Download/Commit.antt =====
-- What `doFetch` of internal/fuse/fetch.go puts in the cache is one version of the file.
use livegit.Prelude.{
  ℕ, ◌+◌, ◌<◌, Bool, true, false, not, ◌&&◌, Option, none, some, List, [], ◌∷◌, ◌++◌, Bytes, eqb,
  eqb_iff, ltb, ltb→lt, length, take, drop, append_assoc, append-nil, length-append, drop-append,
  ◌≡◌, refl, sym, ap, ◌∙◌, ◌⊎◌, inl, inr, Bool-cases, Option-cases, arith,
}
use livegit.Remote.Read.{FileStat}
use livegit.Download.{
  Version, Local, SinkIo, taken, turned_away, broken, PrimeIo, primed, broke_after, Stream,
  DownloadIo, Transfer, Committed, Downloaded, committed, may_resume, bytes_of, prime_hasher,
  resume, prepare, deliver, conclude, transfer, do_fetch,
}

abbrev pub joined_chunks : List (Bytes × SinkIo) → Bytes
joined_chunks [] = []
joined_chunks ((chunk, io) ∷ chunks) = chunk ++ joined_chunks chunks

-- What the sink took is what came.
abbrev IsDelivered : Bytes → Transfer → Transfer → Type 0
IsDelivered s t t' =
    (t'.bytes ≡ t.bytes ++ s) × (t'.hashed ≡ t.hashed ++ s) × (t'.progress ≡ t.progress + length s)

deliver-IsDelivered :
    (chunks : List (Bytes × SinkIo)) (t : Transfer)
    → (deliver chunks t).1 ≡ true
    → IsDelivered (joined_chunks chunks) t (deliver chunks t).0
unfolding deliver
deliver-IsDelivered [] t h = (sym (append-nil t.bytes), sym (append-nil t.hashed), omega arith)
deliver-IsDelivered ((chunk, taken) ∷ chunks) t h =
    let rest =
      deliver-IsDelivered chunks
        (record {
          bytes = t.bytes ++ chunk;
          hashed = t.hashed ++ chunk;
          progress = t.progress + length chunk;
        })
        h in
    (
      rest.0 ∙ append_assoc t.bytes chunk (joined_chunks chunks),
      rest.1 ∙ append_assoc t.hashed chunk (joined_chunks chunks),
      omega (arith, rest.2, length-append chunk (joined_chunks chunks)),
    )
deliver-IsDelivered ((chunk, turned_away) ∷ chunks) t h = ground (arith, h)
deliver-IsDelivered ((chunk, broken n) ∷ chunks) t h = ground (arith, h)

may_resume-same : (id : Option Version) (v : Version) → may_resume id (some v) ≡ true → id ≡ some v
unfolding may_resume
may_resume-same none v h = ground (arith, h)
may_resume-same (some w) v h =
    let size : w.0 ≡ v.0 = ground (arith, h, eqb_iff w.0 v.0) in
    let time : w.1 ≡ v.1 = ground (arith, h, eqb_iff w.1 v.1) in
    ap (λ n. some (n, w.1)) size ∙ ap (λ n. some (v.0, n)) time

length-zero : (p : Bytes) → length p ≡ 0 → p ≡ []
length-zero [] h = refl
length-zero (c ∷ p) h = ground (arith, h)

may_resume-found :
    (id : Option Version) (prev : Option Version) → may_resume id prev ≡ true → prev ≡ id
unfolding may_resume
may_resume-found none none h = ground (arith, h)
may_resume-found (some v) none h = ground (arith, h)
may_resume-found id (some v) h = sym (may_resume-same id v h)

Prime-cases : (io : PrimeIo) → (io ≡ primed) ⊎ ((n : ℕ) × (io ≡ broke_after n))
Prime-cases primed = inl refl
Prime-cases (broke_after n) = inr (n, refl)

not_primed : {P : Type 0} (n : ℕ) → broke_after n ≡ primed → P
not_primed n e = ground (arith, e)

abbrev did_commit : Downloaded → Bool
did_commit (committed e) = true
did_commit _ = false

abbrev can_resume : DownloadIo → Option Version → Local → Bool
can_resume io id local =
    may_resume id local.sidecar && (io.stat_ok && ltb 0 (length (bytes_of local.staged)))

module _ (io : DownloadIo) (id : Option Version) (local : Local) where
  resume-primed :
      can_resume io id local ≡ true
      → io.prime ≡ primed
      → resume io id local ≡ (bytes_of local.staged, length (bytes_of local.staged))
  unfolding resume prime_hasher
  resume-primed c e = simp (c, e) refl

  resume-broken :
      (n : ℕ)
      → can_resume io id local ≡ true
      → io.prime ≡ broke_after n
      → resume io id local ≡ (take n (bytes_of local.staged), 0)
  unfolding resume prime_hasher
  resume-broken n c e = simp (c, e) refl

  resume-afresh : can_resume io id local ≡ false → resume io id local ≡ ([], 0)
  unfolding resume
  resume-afresh c = simp c refl

conclude-none :
    {P : Type 0} (io : DownloadIo) (id : Option Version) (start : ℕ) (local : Local) (t : Transfer)
    (e : Committed)
    → (conclude io id start none local t).1 ≡ committed e
    → P
unfolding conclude
conclude-none io id start local t e h = ground (arith, ap did_commit h)

abbrev committed_local : Transfer → Local
committed_local t = record { staged = none; sidecar = none; cached = some t.bytes }

abbrev committed_entry : FileStat → Transfer → Committed
committed_entry meta t = record {
  size = t.progress;
  mod_time = meta.mod_time;
  mode = meta.mode;
  hashed = t.hashed;
}

abbrev entry_of : Downloaded → Committed
entry_of (committed e) = e
entry_of _ = record { size = 0; mod_time = 0; mode = 0; hashed = [] }

module _ (content : Version → Bytes) where
  -- The staged bytes are a beginning of the version that the sidecar names.
  abbrev pub IsStaged : Local → Type 0
  IsStaged local =
      (v : Version)
      → local.sidecar ≡ some v
      → (rest : Bytes) × (content v ≡ bytes_of local.staged ++ rest)

  -- Where a read of the whole file goes well, the chunks are the rest of the version whose size and
  -- time it gives.
  abbrev pub IsFaithful : Stream → Type 0
  IsFaithful stream =
      (start : ℕ) (meta : FileStat)
      → (stream start).1 ≡ some meta
      → meta.exists ≡ true
      → joined_chunks (stream start).0 ≡ drop start (content (meta.size, meta.mod_time))

  -- A whole version, with its metadata; the hash is that of the bytes where the staged ones could
  -- be read again.
  abbrev pub IsWhole : DownloadIo → Local → Committed → Type 0
  IsWhole io local e =
      (v : Version) × (local.cached ≡ some (content v))
      × (e.mod_time ≡ v.1)
      × (e.size ≡ length (content v))
      × ((e.hashed ≡ content v) ⊎ ((n : ℕ) × (io.prime ≡ broke_after n)))

  -- The first bytes, from which the download goes on
  abbrev Begun : DownloadIo → Option Version → ℕ → Bytes → Transfer → Type 0
  Begun io id start p t =
      (t.bytes ≡ p)
      × (t.progress ≡ start)
      × (length p ≡ start)
      × (io.prime ≡ primed → t.hashed ≡ p)
      × (0 < start → (v : Version) → id ≡ some v → (rest : Bytes) × (content v ≡ p ++ rest))

  whole_bytes :
      (io : DownloadIo) (id : Option Version) (start : ℕ) (meta : FileStat) (s p : Bytes)
      (t : Transfer)
      → s ≡ drop start (content (meta.size, meta.mod_time))
      → Begun io id start p t
      → not (ltb 0 start && not (may_resume id (some (meta.size, meta.mod_time)))) ≡ true
      → p ++ s ≡ content (meta.size, meta.mod_time)
  whole_bytes io id start meta s p t from begun kept = elim (Bool-cases (ltb 0 start)) [
    | inl pos ↦
        let m : Version = (meta.size, meta.mod_time) in
        let same : id ≡ some m = may_resume-same id m (ground (arith, kept, pos)) in
        let (rest, q) = begun.4 (ltb→lt 0 start pos) m same in
        let tail : s ≡ rest =
          from
          ∙ ap (drop start) q
          ∙ ap (λ n. drop n (p ++ rest)) (sym begun.2)
          ∙ drop-append p rest in
        ap (λ r. p ++ r) tail ∙ sym q
    | inr zero_start ↦
        let first : start ≡ 0 = ground (arith, zero_start) in
        let empty : p ≡ [] = length-zero p (begun.2 ∙ first) in
        rw empty (from ∙ ap (λ n. drop n (content (meta.size, meta.mod_time))) first)
  ]

  conclude-IsWhole :
      (io : DownloadIo) (id : Option Version) (start : ℕ) (meta : FileStat) (s : Bytes)
      (local : Local) (p : Bytes) (t t' : Transfer) (e : Committed)
      → (meta.exists ≡ true → s ≡ drop start (content (meta.size, meta.mod_time)))
      → Begun io id start p t
      → IsDelivered s t t'
      → (conclude io id start (some meta) local t').1 ≡ committed e
      → IsWhole io (conclude io id start (some meta) local t').0 e
  unfolding conclude
  conclude-IsWhole io id start meta s local p t t' e from begun came h =
      let guard = ltb 0 start && not (may_resume id (some (meta.size, meta.mod_time))) in
      elim (Bool-cases (io.close_ok && (meta.exists && (not guard && io.rename_ok)))) [
        | inl good ↦
            let done : conclude io id start (some meta) local t'
                ≡ (committed_local t', committed (committed_entry meta t')) =
              ground (arith, good) in
            let mine : committed_entry meta t' ≡ e = ap entry_of (sym (ap (λ r. r.1) done) ∙ h) in
            let kept : not guard ≡ true = ground (arith, good) in
            let there : meta.exists ≡ true = ground (arith, good) in
            let bytes : p ++ s ≡ content (meta.size, meta.mod_time) =
              whole_bytes io id start meta s p t (from there) begun kept in
            rw (done, sym mine)
              (
                (meta.size, meta.mod_time),
                ap some (came.0 ∙ ap (λ q. q ++ s) begun.0 ∙ bytes),
                refl,
                omega (arith, came.2, begun.1, begun.2, length-append p s, ap length bytes),
                elim (Prime-cases io.prime) [
                  | inl i ↦ inl (came.1 ∙ ap (λ q. q ++ s) (begun.3 i) ∙ bytes)
                  | inr broke ↦ inr broke
                ],
              )
        | inr bad ↦
            let none_done : did_commit (conclude io id start (some meta) local t').1 ≡ false =
              ground (arith, bad) in
            ground (arith, sym none_done ∙ ap did_commit h)
      ]

  begin_empty :
      (io : DownloadIo) (id : Option Version) (seen : Bytes) (local : Local)
      → (io.prime ≡ primed → seen ≡ [])
      → Begun io id 0 [] (prepare id 0 seen local).1
  unfolding prepare
  begin_empty io id seen local h = (refl, refl, refl, h, λ lt v e. ground (arith, lt))

  begin_staged :
      (io : DownloadIo) (id : Option Version) (local : Local)
      → IsStaged local
      → local.sidecar ≡ id
      → 0 < length (bytes_of local.staged)
      → let s = bytes_of local.staged in Begun io id (length s) s (prepare id (length s) s local).1
  unfolding prepare
  begin_staged io id local staged same pos =
      let some_left : eqb (length (bytes_of local.staged)) 0 ≡ false = ground (arith, pos) in
      simp some_left (refl, refl, refl, λ i. refl, λ lt v e. staged v (same ∙ e))

  begin :
      (io : DownloadIo) (id : Option Version) (local : Local)
      → IsStaged local
      → let (seen, start) = resume io id local in
        (p : Bytes) × Begun io id start p (prepare id start seen local).1
  begin io id local staged =
      let s = bytes_of local.staged in
      elim (Bool-cases (can_resume io id local)) [
        | inl c ↦ elim (Prime-cases io.prime) [
          | inl e ↦
              let same : local.sidecar ≡ id =
                may_resume-found id local.sidecar (ground (arith, c)) in
              let pos : 0 < length s = ground (arith, c) in
              rw (resume-primed io id local c e) (s, begin_staged io id local staged same pos)
          | inr (n, e) ↦
              rw (resume-broken io id local n c e)
                ([], begin_empty io id (take n s) local (λ k. not_primed n (sym e ∙ k)))
        ]
        | inr c ↦ rw (resume-afresh io id local c) ([], begin_empty io id [] local (λ k. refl))
      ]

  transfer-IsWhole :
      (stream : Stream) (io : DownloadIo) (id : Option Version) (start : ℕ) (local : Local)
      (p : Bytes) (t : Transfer) (e : Committed)
      → IsFaithful stream
      → Begun io id start p t
      → (transfer stream io id start (local, t)).1 ≡ committed e
      → IsWhole io (transfer stream io id start (local, t)).0 e
  unfolding transfer
  transfer-IsWhole stream io id start local p t e faithful begun h =
      elim (Bool-cases (deliver (stream start).0 t).1) [
        | inl ok ↦ elim (Option-cases (stream start).1) [
          | inl n ↦
              conclude-none io id start local (deliver (stream start).0 t).0 e (simp (ok, n) at h)
          | inr (meta, m) ↦
              simp (ok, m)
                (conclude-IsWhole io id start meta (joined_chunks (stream start).0) local p t
                  (deliver (stream start).0 t).0 e (faithful start meta m) begun
                  (deliver-IsDelivered (stream start).0 t ok) (simp (ok, m) at h))
        ]
        | inr bad ↦ conclude-none io id start local (deliver (stream start).0 t).0 e (simp bad at h)
      ]

  -- What a download commits to the cache is the whole of one version of the file, whatever was
  -- staged before, if the staged bytes are a beginning of the version that their sidecar names
  -- and a read that ends well is the rest of the version it tells of: the entry has that
  -- version's size and time, and its hash where the staged bytes could be read again.
  pub do_fetch-IsWhole :
      (stream : Stream) (io : DownloadIo) (id : Option Version) (local : Local) (e : Committed)
      → IsStaged local
      → IsFaithful stream
      → (do_fetch stream io id local).1 ≡ committed e
      → IsWhole io (do_fetch stream io id local).0 e
  unfolding do_fetch
  do_fetch-IsWhole stream io id local e staged faithful h =
      let seen = (resume io id local).0 in
      let start = (resume io id local).1 in
      let (p, begun) = begin io id local staged in
      elim (Bool-cases (eqb start 0 && not io.truncate_ok)) [
        | inl bad ↦ ground (arith, ap did_commit (simp bad at h))
        | inr truncated ↦ elim (Bool-cases (ltb 0 start && not io.seek_ok)) [
          | inl bad ↦ ground (arith, ap did_commit (simp (truncated, bad) at h))
          | inr sought ↦
              simp (truncated, sought)
                (transfer-IsWhole stream io id start (prepare id start seen local).0 p
                  (prepare id start seen local).1 e faithful begun (simp (truncated, sought) at h))
        ]
      ]
