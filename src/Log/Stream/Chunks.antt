-- ===== src/Log/Stream/Chunks.antt =====
-- Where the output of a child process is cut into chunks does not matter.
use microkube.Base.{
  suc, ◌⊎◌, inl, inr, none, some, List, [], ◌∷◌, ◌++◌, ◌≡◌, refl, sym, ap, ◌∙◌, arith, length,
  concat, append_assoc, append-nil,
}
use microkube.Base.Bytes.{Bytes}
use microkube.Base.Errors.{ErrorsPkg}
use microkube.Log.Stream.Split.{split, split-append, length-split}
use microkube.Log.Stream.Feed.{NeverFails, feed, handle_data-feed}
use microkube.Log.Stream.{
  Handled, returned, panicked, LogParser, Outcome, finished, crashed, out_of_fuel, handle_data,
  handle_chunks,
}

-- What follows an outcome that is not a crash.
abbrev next : {L : Type 0} → Outcome L → (LogParser L → Outcome L) → Outcome L
next (finished q e) k = k q
next crashed k = crashed
next out_of_fuel k = out_of_fuel

module _ {L : Type 0} (pkg : ErrorsPkg) (handler : L → Bytes → Handled L) where
  handle_chunks-cons :
      (lp : LogParser L) (chunk : Bytes) (chunks : List Bytes)
      → handle_chunks pkg handler lp (chunk ∷ chunks)
        ≡ next
            (handle_data pkg handler (suc (length (lp.buf ++ chunk))) lp (some chunk))
            (λ q. handle_chunks pkg handler q chunks)
  unfolding handle_chunks
  handle_chunks-cons lp chunk chunks =
      go (handle_data pkg handler (suc (length (lp.buf ++ chunk))) lp (some chunk)) refl
    where
      go :
          (o : Outcome L)
          → handle_data pkg handler (suc (length (lp.buf ++ chunk))) lp (some chunk) ≡ o
          → handle_chunks pkg handler lp (chunk ∷ chunks)
            ≡ next
                (handle_data pkg handler (suc (length (lp.buf ++ chunk))) lp (some chunk))
                (λ q. handle_chunks pkg handler q chunks)
      go (finished q e) r = rw (r, handle_chunks) refl
      go crashed r = rw (r, handle_chunks) refl
      go out_of_fuel r = rw (r, handle_chunks) refl

  module _ (never : (log : L) (line : Bytes) → NeverFails (handler log line)) where
    calls :
        (log : L) (line : Bytes)
        → (handler log line ≡ panicked) ⊎ ((log' : L) × (handler log line ≡ returned log' none))
    calls log line = go (handler log line) refl (never log line)
      where
        go :
            (r : Handled L)
            → handler log line ≡ r
            → NeverFails r
            → (handler log line ≡ panicked) ⊎ ((log' : L) × (handler log line ≡ returned log' none))
        go panicked e n = inl e
        go (returned log' none) e n = inr (log', e)
        go (returned log' (some x)) e n = cc

    next-feed :
        (lines : List Bytes) (log : L) (rest : Bytes) (k k' : LogParser L → Outcome L)
        → ((log' : L)
            → k (record { buf = rest; log = log' }) ≡ k' (record { buf = rest; log = log' }))
        → next (feed pkg handler log lines rest) k ≡ next (feed pkg handler log lines rest) k'
    unfolding feed
    next-feed [] log rest k k' h = h log
    next-feed (line ∷ lines) log rest k k' h = elim (calls log line) [
      | inl p ↦ rw (p, feed) refl
      | inr (log', r) ↦ rw (r, feed) (next-feed lines log' rest k k' h)
    ]

    feed-append :
        (xs ys : List Bytes) (log : L) (r rest : Bytes)
        → feed pkg handler log (xs ++ ys) rest
          ≡ next (feed pkg handler log xs r) (λ q. feed pkg handler q.log ys rest)
    unfolding feed
    feed-append [] ys log r rest = refl
    feed-append (x ∷ xs) ys log r rest = elim (calls log x) [
      | inl p ↦ rw (p, feed) refl
      | inr (log', e) ↦ rw (e, feed) (feed-append xs ys log' r rest)
    ]

    feed-nil :
        (xs : List Bytes) (log : L) (rest : Bytes)
        → next (feed pkg handler log xs rest) (λ q. finished q none) ≡ feed pkg handler log xs rest
    unfolding feed
    feed-nil [] log rest = refl
    feed-nil (x ∷ xs) log rest = elim (calls log x) [
      | inl p ↦ rw (p, feed) refl
      | inr (log', e) ↦ rw (e, feed) (feed-nil xs log' rest)
    ]

    handle_chunk :
        (lp : LogParser L) (chunk : Bytes) (chunks : List Bytes)
        → handle_chunks pkg handler lp (chunk ∷ chunks)
          ≡ next
              (feed pkg handler lp.log (split (lp.buf ++ chunk)).0 (split (lp.buf ++ chunk)).1)
              (λ q. handle_chunks pkg handler q chunks)
    handle_chunk lp chunk chunks =
        handle_chunks-cons lp chunk chunks
        ∙ ap (λ o. next o (λ q. handle_chunks pkg handler q chunks))
            (handle_data-feed pkg handler _ lp (some chunk)
              (omega (arith, length-split (lp.buf ++ chunk))))

    handle_chunks-feed :
        (chunks : List Bytes) (lp : LogParser L) (chunk : Bytes)
        → handle_chunks pkg handler lp (chunk ∷ chunks)
          ≡ feed pkg handler lp.log
              (split (lp.buf ++ (chunk ++ concat chunks))).0
              (split (lp.buf ++ (chunk ++ concat chunks))).1
    unfolding handle_chunks
    handle_chunks-feed [] lp chunk = rw append-nil (
        handle_chunk lp chunk []
        ∙ next-feed _ lp.log _ _ (λ q. finished q none) (λ log'. refl)
        ∙ feed-nil _ lp.log _)
    handle_chunks-feed (d ∷ ds) lp chunk =
        let s = split (lp.buf ++ chunk) in
        let more = d ++ concat ds in
        handle_chunk lp chunk (d ∷ ds)
        ∙ next-feed s.0 lp.log s.1 (λ q. handle_chunks pkg handler q (d ∷ ds))
            (λ q. feed pkg handler q.log (split (s.1 ++ more)).0 (split (s.1 ++ more)).1)
            (λ log'. handle_chunks-feed ds (record { buf = s.1; log = log' }) d)
        ∙ sym (feed-append s.0 (split (s.1 ++ more)).0 lp.log s.1 (split (s.1 ++ more)).1)
        ∙ sym (
            ap (λ (t : List Bytes × Bytes). feed pkg handler lp.log t.0 t.1)
              (split-append (lp.buf ++ chunk) more))
        ∙ ap (λ t. feed pkg handler lp.log (split t).0 (split t).1) (append_assoc lp.buf chunk more)

    -- If the handler returns no error, the output of a process has the same effect in whatever
    -- chunks it arrives: all chunks one after another come to what the whole text comes to.
    pub handle_chunks-concat :
        (lp : LogParser L) (chunk : Bytes) (chunks : List Bytes)
        → handle_chunks pkg handler lp (chunk ∷ chunks)
          ≡ handle_chunks pkg handler lp ((chunk ++ concat chunks) ∷ [])
    handle_chunks-concat lp chunk chunks =
        handle_chunks-feed chunks lp chunk
        ∙ ap (λ t. feed pkg handler lp.log (split (lp.buf ++ t)).0 (split (lp.buf ++ t)).1)
            (sym (append-nil (chunk ++ concat chunks)))
        ∙ sym (handle_chunks-feed [] lp (chunk ++ concat chunks))
