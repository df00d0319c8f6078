-- ===== src/Reading/Whole.antt =====
-- What `readStream` of internal/fuse/source.go delivers, from a file that the agent's `read` opens.
use livegit.Prelude.{
  ℕ, zero, suc, ◌+◌, ◌-◌, ◌<◌, ◌≤◌, Bool, true, false, Option, none, some, List, [], ◌∷◌, ◌++◌,
  Bytes, eqb, eqb_iff, length, take, drop, append-nil, length-append, length-drop, take-append-drop,
  ◌≡◌, refl, sym, ap, ◌∙◌, inl, inr, Bool-cases, arith,
}
use mathlib.Core.Path.{subst}
use livegit.Remote.{SourceFile}
use livegit.Remote.Read.{FileStat, ReadReq, ReadResp, read_file, read_max, read_max-pos}
use livegit.Reading.{
  Chunks, is_changed, first_stat, on_missing, with_chunk, on_answer, chunk_length, known_stat,
  read_stream,
}

abbrev pub concat : List Bytes → Bytes
concat [] = []
concat (chunk ∷ chunks) = chunk ++ concat chunks

abbrev pub request : Bytes → ℕ → ℕ → ReadReq
request p max off = record { rel = p; offset = off; max_len = max }

-- What a request meets: it is lost, the file is not there, or it is, with its bytes at the time of
-- the read.
pub data Meets : Type 0 where
  lost : Meets
  gone : Meets
  there : SourceFile → Bytes → Meets

abbrev missing : ReadResp
missing = record { found = false; content = []; more = false; size = 0; mod_time = 0; mode = 0 }

abbrev pub answer : Bytes → ℕ → ℕ → Meets → Option ReadResp
answer p max off lost = none
answer p max off gone = some missing
answer p max off (there f bytes) = some (read_file (request p max off) f bytes)

abbrev pub answers : Bytes → ℕ → (ℕ → Meets) → ℕ → ℕ → Option ReadResp
answers p max meets round off = answer p max off (meets round)

drop-drop : (n m k : ℕ) (xs : Bytes) → k ≡ m + n → drop n (drop m xs) ≡ drop k xs
drop-drop n zero k xs h = let same : n ≡ k = omega (arith, h) in ap (λ i. drop i xs) same
drop-drop n (suc m) zero xs h = ground (arith, h)
drop-drop zero (suc m) (suc k) [] h = refl
drop-drop (suc n) (suc m) (suc k) [] h = refl
drop-drop n (suc m) (suc k) (x ∷ xs) h = drop-drop n m k xs (omega (arith, h))

take-rest : (n : ℕ) (xs : Bytes) → take n xs ++ drop (length (take n xs)) xs ≡ xs
take-rest zero xs = refl
take-rest (suc n) [] = refl
take-rest (suc n) (x ∷ xs) = ap (λ r. x ∷ r) (take-rest n xs)

drop-all : (n : ℕ) (xs : Bytes) → length xs ≤ n → drop n xs ≡ []
drop-all zero [] h = refl
drop-all zero (x ∷ xs) h = ground (arith, h)
drop-all (suc n) [] h = refl
drop-all (suc n) (x ∷ xs) h = drop-all n xs (omega (arith, h))

module _ (p : Bytes) (max off : ℕ) (f : SourceFile) where
  -- A chunk and what is left
  pub read_file-split :
      let r = read_file (request p max off) f f.content in
      drop off f.content ≡ r.content ++ drop (off + length r.content) f.content
  unfolding read_file
  read_file-split =
      let tail = drop off f.content in
      let n = length (take (read_max max) tail) in
      sym (take-rest (read_max max) tail)
      ∙ ap (λ r. take (read_max max) tail ++ r) (drop-drop n off (off + n) f.content refl)

  read_file-end :
      (read_file (request p max off) f f.content).more ≡ false
      → length f.content ≤ off + length (read_file (request p max off) f f.content).content
  unfolding read_file
  read_file-end h = ground (arith, h)

  pub read_file-more :
      (read_file (request p max off) f f.content).more ≡ true → off < length f.content
  unfolding read_file
  read_file-more h = ground (arith, h)

  -- Where more is to come, this chunk is not empty.
  pub read_file-nonempty :
      (read_file (request p max off) f f.content).more ≡ true
      → 0 < length (read_file (request p max off) f f.content).content
  unfolding read_file
  read_file-nonempty h =
      let tail = drop off f.content in
      let n = read_max max in
      let left : length tail ≡ length f.content - off = length-drop off f.content in
      let split : length tail ≡ length (take n tail) + length (drop n tail) =
        ap length (sym (take-append-drop n tail)) ∙ length-append (take n tail) (drop n tail) in
      let after : length (drop n tail) ≡ length tail - n = length-drop n tail in
      let pos : 0 < n = read_max-pos max in omega (arith, left, split, after, pos, read_file-more h)

  pub read_file-last :
      (read_file (request p max off) f f.content).more ≡ false
      → drop off f.content ≡ (read_file (request p max off) f f.content).content
  read_file-last h =
      let r = read_file (request p max off) f f.content in
      let done : drop (off + length r.content) f.content ≡ [] =
        drop-all (off + length r.content) f.content (read_file-end h) in
      read_file-split ∙ ap (λ l. r.content ++ l) done ∙ append-nil r.content

abbrev end_of : Option Chunks → Option FileStat
end_of none = none
end_of (some chunks) = chunks.1

-- Whether the metadata are those of a file
abbrev has_end : Option FileStat → Bool
has_end none = false
has_end (some meta) = meta.exists

abbrev pub chunks_of : Option Chunks → Chunks
chunks_of none = ([], none)
chunks_of (some chunks) = chunks

abbrev pub stat_or : FileStat → Option FileStat → FileStat
stat_or st none = st
stat_or st (some found) = found

pub read_file-found :
    (p : Bytes) (max off : ℕ) (f : SourceFile)
    → (read_file (request p max off) f f.content).found ≡ true
unfolding read_file
read_file-found p max off f = refl

absurd_end : {P : Type 0} (meta : FileStat) → none ≡ some meta → P
absurd_end meta e = ground (arith, e)

module _ (content : ℕ × ℕ → Bytes) (p : Bytes) (max : ℕ) (meets : ℕ → Meets) where
  -- Size and time tell what the file holds, whenever it is there, and it does not change between
  -- the two looks of one request at it.
  abbrev pub IsVersioned : Type 0
  IsVersioned =
      (round : ℕ) (f : SourceFile) (bytes : Bytes)
      → meets round ≡ there f bytes
      → (content (length f.content, f.mod_time) ≡ f.content) × (bytes ≡ f.content)

  -- The chunks are the rest of the version of a read that ends well.
  abbrev pub Rests : ℕ → Chunks → Type 0
  Rests off chunks =
      (meta : FileStat)
      → chunks.1 ≡ some meta
      → meta.exists ≡ true
      → concat chunks.0 ≡ drop off (content (meta.size, meta.mod_time))

  -- A read that goes on keeps the metadata of its first chunk.
  abbrev Keeps : Option FileStat → Chunks → Type 0
  Keeps st chunks = (st0 meta : FileStat) → st ≡ some st0 → chunks.1 ≡ some meta → meta ≡ st0

  failed-Rests :
      (off : ℕ) (st : Option FileStat) (chunks : Chunks)
      → some ([], none) ≡ some chunks
      → Rests off chunks × Keeps st chunks
  failed-Rests off st chunks h =
      let failed : none ≡ chunks.1 = ap end_of h in
      (λ meta m. absurd_end meta (failed ∙ m), λ st0 meta e m. absurd_end meta (failed ∙ m))

  first_stat-known :
      (st : Option FileStat) (st0 : FileStat) (r : ReadResp)
      → st ≡ some st0
      → first_stat p st r ≡ st0
  unfolding first_stat
  first_stat-known none st0 r e = absurd_end st0 e
  first_stat-known (some st) st0 r e = ap (stat_or st) e

  missing-Rests :
      (off : ℕ) (st : Option FileStat) (chunks : Chunks)
      → some (on_missing p st) ≡ some chunks
      → Rests off chunks × Keeps st chunks
  unfolding on_missing
  missing-Rests off none chunks h = (
    λ meta m e. ground (arith, e, ap has_end (ap end_of h ∙ m)),
    λ st0 meta e m. ground (arith, e),
  )
  missing-Rests off (some st0) chunks h = failed-Rests off (some st0) chunks h

  same_version :
      (off : ℕ) (f : SourceFile) (st : Option FileStat)
      → content (length f.content, f.mod_time) ≡ f.content
      → let r = read_file (request p max off) f f.content in
        is_changed st r ≡ false
        → content ((first_stat p st r).size, (first_stat p st r).mod_time) ≡ f.content
  unfolding is_changed first_stat read_file
  same_version off f none v h = v
  same_version off f (some st) v h =
      let size : st.size ≡ length f.content =
        ground (arith, h, eqb_iff (length f.content) st.size) in
      let time : st.mod_time ≡ f.mod_time = ground (arith, h, eqb_iff f.mod_time st.mod_time) in
      rw (size, time) v

  more-Rests :
      (off : ℕ) (f : SourceFile) (st : Option FileStat) (rest : Option Chunks) (chunks : Chunks)
      → let r = read_file (request p max off) f f.content in
        let first = first_stat p st r in
        content (first.size, first.mod_time) ≡ f.content
        → ((chunks' : Chunks)
            → rest ≡ some chunks'
            → Rests (off + length r.content) chunks' × Keeps (some first) chunks')
        → with_chunk r.content rest ≡ some chunks
        → Rests off chunks × Keeps st chunks
  unfolding with_chunk
  more-Rests off f st none chunks v ok h = ground (arith, h)
  more-Rests off f st (some (later, end)) chunks v ok h =
      let r = read_file (request p max off) f f.content in
      let first = first_stat p st r in
      let (rests, keeps) = ok (later, end) refl in
      let made : (r.content ∷ later, end) ≡ chunks = ap chunks_of h in
      rw (sym made) (
        λ meta m ex.
            let same : content (meta.size, meta.mod_time) ≡ f.content =
              ap (λ (k : FileStat). content (k.size, k.mod_time)) (keeps first meta refl m) ∙ v in
            rw same (
              ap (λ l. r.content ++ l) (rests meta m ex ∙ ap (drop (off + length r.content)) same)
              ∙ sym (read_file-split p max off f)),
        λ st0 meta e m. keeps first meta refl m ∙ first_stat-known st st0 r e,
      )

  last-Rests :
      (off : ℕ) (f : SourceFile) (st : Option FileStat) (chunks : Chunks)
      → let r = read_file (request p max off) f f.content in
        let first = first_stat p st r in
        content (first.size, first.mod_time) ≡ f.content
        → r.more ≡ false
        → some (r.content ∷ [], some first) ≡ some chunks
        → Rests off chunks × Keeps st chunks
  last-Rests off f st chunks v m h =
      let r = read_file (request p max off) f f.content in
      let first = first_stat p st r in
      let made : (r.content ∷ [], some first) ≡ chunks = ap chunks_of h in
      rw (sym made) (
        λ meta e ex.
            let same : first ≡ meta = ap (stat_or first) e in
            rw (sym same, v) (append-nil r.content ∙ sym (read_file-last p max off f m)),
        λ st0 meta k e. sym (ap (stat_or first) e) ∙ first_stat-known st st0 r k,
      )

  there-Rests :
      (off : ℕ) (f : SourceFile) (st : Option FileStat) (rest : Option Chunks) (chunks : Chunks)
      → content (length f.content, f.mod_time) ≡ f.content
      → let r = read_file (request p max off) f f.content in
        ((chunks' : Chunks)
          → rest ≡ some chunks'
          → Rests (off + length r.content) chunks' × Keeps (some (first_stat p st r)) chunks')
        → on_answer p st (some r) rest ≡ some chunks
        → Rests off chunks × Keeps st chunks
  unfolding on_answer
  there-Rests off f st rest chunks v ok h =
      let r = read_file (request p max off) f f.content in
      let found : r.found ≡ true = read_file-found p max off f in
      elim (Bool-cases (is_changed st r)) [
        | inl c ↦ failed-Rests off st chunks (simp (found, c) at h)
        | inr c ↦ elim (Bool-cases r.more) [
          | inl m ↦ elim (Bool-cases (eqb (length r.content) 0)) [
            | inl z ↦ failed-Rests off st chunks (simp (found, c, m, z) at h)
            | inr z ↦
                more-Rests off f st rest chunks (same_version off f st v c) ok
                  (simp (found, c, m, z) at h)
          ]
          | inr m ↦
              last-Rests off f st chunks (same_version off f st v c) m (simp (found, c, m) at h)
        ]
      ]

  answer-Rests :
      (off : ℕ) (m : Meets) (st : Option FileStat) (rest : Option Chunks) (chunks : Chunks)
      → ((f : SourceFile) (bytes : Bytes)
          → m ≡ there f bytes
          → (content (length f.content, f.mod_time) ≡ f.content) × (bytes ≡ f.content))
      → ((chunks' : Chunks)
          → rest ≡ some chunks'
          → Rests (off + chunk_length (answer p max off m)) chunks'
            × Keeps (known_stat p st (answer p max off m)) chunks')
      → on_answer p st (answer p max off m) rest ≡ some chunks
      → Rests off chunks × Keeps st chunks
  unfolding on_answer chunk_length known_stat
  answer-Rests off lost st rest chunks v ok h = failed-Rests off st chunks h
  answer-Rests off gone st rest chunks v ok h = missing-Rests off st chunks h
  answer-Rests off (there f bytes) st rest chunks v ok h =
      let (version, same) = v f bytes refl in
      let whole : read_file (request p max off) f bytes
          ≡ read_file (request p max off) f f.content =
        ap (read_file (request p max off) f) same in
      there-Rests off f st rest chunks version
        (λ chunks' e.
          let (rests, keeps) = ok chunks' e in
          (
            subst (λ (r : ReadResp). Rests (off + length r.content) chunks') whole rests,
            subst (λ (r : ReadResp). Keeps (some (first_stat p st r)) chunks') whole keeps,
          ))
        (ap (λ r. on_answer p st (some r) rest) (sym whole) ∙ h)

  read-Rests :
      IsVersioned
      → (left round off : ℕ) (st : Option FileStat) (chunks : Chunks)
      → read_stream p (answers p max meets) left round off st ≡ some chunks
      → Rests off chunks × Keeps st chunks
  unfolding read_stream
  read-Rests v zero round off st chunks h = ground (arith, h)
  read-Rests v (suc left) round off st chunks h =
      answer-Rests off (meets round) st _ chunks (v round)
        (λ chunks' e. read-Rests v left (suc round) _ _ chunks' e) h

  -- From the first round on
  pub read_stream-Rests :
      IsVersioned
      → (left off : ℕ) (chunks : Chunks)
      → read_stream p (answers p max meets) left 0 off none ≡ some chunks
      → Rests off chunks
  read_stream-Rests v left off chunks h = (read-Rests v left 0 off none chunks h).0
