-- ===== src/Reading/Ends.antt =====
-- `readStream` of internal/fuse/source.go comes to an end, on a file that stays as it is.
use livegit.Prelude.{
  ◌∙◌, ℕ, zero, suc, ◌+◌, ◌<◌, true, false, Option, none, some, List, [], ◌∷◌, Bytes, eqb, length,
  drop, ◌≡◌, refl, sym, ap, inl, inr, Bool-cases, arith,
}
use livegit.Remote.{SourceFile}
use livegit.Remote.Read.{FileStat, read_file}
use livegit.Reading.{
  Chunks, is_changed, first_stat, with_chunk, on_answer, chunk_length, known_stat, read_stream,
}
use livegit.Reading.Whole.{
  Meets, there, answers, request, concat, read_file-more, read_file-nonempty, read_file-found,
  stat_or, read_stream-Rests,
}

abbrev pub content_at : Meets → Bytes
content_at (there f bytes) = f.content
content_at _ = []

abbrev pub bytes_at : Meets → Bytes
bytes_at (there f bytes) = bytes
bytes_at _ = []

module _ (p : Bytes) (max : ℕ) (f : SourceFile) where
  abbrev pub stays : ℕ → Meets
  stays round = there f f.content

  -- The metadata of the file
  abbrev pub full : FileStat
  full = record {
    rel = p;
    exists = true;
    is_dir = false;
    size = length f.content;
    mod_time = f.mod_time;
    mode = f.mode;
  }

  -- What is known of the file is so.
  abbrev Known : Option FileStat → Type 0
  Known st = (st0 : FileStat) → st ≡ some st0 → st0 ≡ full

  unchanged :
      (off : ℕ) (st : Option FileStat)
      → Known st
      → is_changed st (read_file (request p max off) f f.content) ≡ false
  unfolding is_changed read_file
  unchanged off none k = refl
  unchanged off (some st) k = rw (k st refl) (ground arith)

  first-Known :
      (off : ℕ) (st : Option FileStat)
      → Known st
      → Known (some (first_stat p st (read_file (request p max off) f f.content)))
  unfolding first_stat read_file
  first-Known off none k st0 e = sym (ap (stat_or st0) e) ∙ unfold read_file in refl
  first-Known off (some st) k st0 e = k st0 e

  same_content :
      (g : SourceFile) (bytes : Bytes) → there f f.content ≡ there g bytes → f.content ≡ g.content
  same_content g bytes e = ap content_at e

  same_bytes :
      (g : SourceFile) (bytes : Bytes) → there f f.content ≡ there g bytes → f.content ≡ bytes
  same_bytes g bytes e = ap bytes_at e

  -- Some chunks, and the metadata
  abbrev Ends : Option Chunks → Type 0
  Ends result = (chunks : List Bytes) × (result ≡ some (chunks, some full))

  answer-Ends :
      (off : ℕ) (st : Option FileStat) (rest : Option Chunks)
      → Known st
      → let r = read_file (request p max off) f f.content in
        (r.more ≡ true → Ends rest) → Ends (on_answer p st (some r) rest)
  unfolding on_answer with_chunk
  answer-Ends off st rest k later =
      let r = read_file (request p max off) f f.content in
      let found : r.found ≡ true = read_file-found p max off f in
      let same : is_changed st r ≡ false = unchanged off st k in
      let first = first_stat p st r in
      let known = first-Known off st k first refl in
      elim (Bool-cases r.more) [
        | inl m ↦
            let some_bytes : eqb (length r.content) 0 ≡ false =
              ground (arith, read_file-nonempty p max off f m) in
            let (chunks, e) = later m in
            simp (found, same, m, some_bytes, e) (r.content ∷ chunks, refl)
        | inr m ↦
            simp (found, same, m)
              (r.content ∷ [], ap (λ meta. some (r.content ∷ [], some meta)) known)
      ]

  read-Ends :
      (left round off : ℕ) (st : Option FileStat)
      → length f.content < off + left
      → 0 < left
      → Known st
      → Ends (read_stream p (answers p max stays) left round off st)
  unfolding read_stream chunk_length known_stat
  read-Ends zero round off st enough pos k = ground (arith, pos)
  read-Ends (suc left) round off st enough pos k =
      let r = read_file (request p max off) f f.content in
      answer-Ends off st _ k (λ m.
        read-Ends left (suc round) (off + length r.content) (known_stat p st (some r))
          (omega (arith, enough, read_file-nonempty p max off f m))
          (omega (arith, enough, read_file-more p max off f m)) (first-Known off st k))

  -- A file that stays as it is read is delivered from the offset to its end, with its metadata, in
  -- at most as many rounds as it has bytes and one more.
  pub read_stream_lem :
      (off : ℕ)
      → (chunks : List Bytes) × (read_stream p
            (answers p max stays)
            (suc (length f.content))
            0
            off
            none
          ≡ some (chunks, some full))
        × (concat chunks ≡ drop off f.content)
  read_stream_lem off =
      let (chunks, e) =
        read-Ends (suc (length f.content)) 0 off none (omega arith) (omega arith)
          (λ st0 k. ground (arith, k)) in
      let rests =
        read_stream-Rests (λ v. f.content) p max stays
          (λ round g bytes k.
            (same_content g bytes k, sym (same_bytes g bytes k) ∙ same_content g bytes k))
          (suc (length f.content)) off (chunks, some full) e in
      (chunks, e, rests full refl refl)
