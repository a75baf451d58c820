-- ===== src/Core/FileStream/Kept.antt =====
-- What the stream and the file have of the bytes, and what is in the buffer in front of them.
use hermes_orderbook.Prelude.{
  ℕ, ◌≡◌, refl, sym, ap, ◌∙◌, Bool, true, false, List, [], ◌++◌, append-nil, is_empty, Bool-cases,
  inl, inr, eq-nil_of_is_empty,
}
use hermes_orderbook.Core.FileStream.{Stream, OutputFileStream, write_buffer_to_file}

module _ (S : Stream) where
  -- What the stream has taken so far, and what waits in the buffer.
  abbrev pub holds : OutputFileStream S → List ℕ
  holds f = S.written f.stream ++ f.buffer

  -- The outcome of `WriteBufferToFile`.
  pub data Flushed (f : OutputFileStream S) : Bool × OutputFileStream S → Type 0 where
    emptied :
        (after : OutputFileStream S)
        → after.buffer ≡ []
        → (S.is_good after.stream ≡ true → S.is_good f.stream ≡ true)
        → S.written after.stream ≡ holds f
        → (S.is_good after.stream ≡ true → S.stored after.stream ≡ holds f)
        → Flushed f (true, after)
    failed :
        (after : OutputFileStream S)
        → after.buffer ≡ f.buffer
        → S.is_good after.stream ≡ false
        → Flushed f (false, after)

  -- What has been taken is in the file, if the stream is good after the flush.
  stored-written :
      (s : S.State) (xs : List ℕ)
      → S.written (S.flush s) ≡ xs
      → S.is_good (S.flush s) ≡ true
      → S.stored (S.flush s) ≡ xs
  stored-written s xs e good = S.stored-flush s good ∙ e

  -- `WriteBufferToFile` returns true only if the stream has taken all of the buffer, which is then
  -- empty; all that the stream took is in the file if the stream is still good after the flush, which
  -- the answer does not tell. It returns false if the stream is bad after the write, and keeps the
  -- buffer.
  pub write_buffer_to_file-Flushed : (f : OutputFileStream S) → Flushed f (write_buffer_to_file S f)
  unfolding write_buffer_to_file
  write_buffer_to_file-Flushed f = elim (Bool-cases (is_empty f.buffer)) [
    | inl none_there ↦
        let e = eq-nil_of_is_empty f.buffer none_there in
        let all : S.written (S.flush f.stream) ≡ holds f =
          S.written-flush f.stream
          ∙ sym (append-nil (S.written f.stream))
          ∙ ap (λ b. S.written f.stream ++ b) (sym e) in
        rw none_there (
          emptied (record f { stream = S.flush f.stream }) e (S.is_good-flush f.stream) all
            (stored-written f.stream (holds f) all))
    | inr some_there ↦ elim (Bool-cases (S.is_good (S.write f.buffer f.stream))) [
      | inl good ↦
          let s = S.write f.buffer f.stream in
          let all : S.written (S.flush s) ≡ holds f =
            S.written-flush s ∙ S.written-write f.buffer f.stream good in
          rw (some_there, good)
            (emptied (record { buffer = []; stream = S.flush s }) refl
              (λ h. S.is_good-write f.buffer f.stream good) all (stored-written s (holds f) all))
      | inr bad ↦
          rw (some_there, bad) (failed (record f { stream = S.write f.buffer f.stream }) refl bad)
    ]
  ]
