-- ===== src/Dfu/Parser/Chunks.antt =====
-- A stream may be fed in pieces: `feed(std::span)` on one piece after the other is one call on all.
use open_deck.Prelude.{ℕ, ◌≡◌, refl, ◌≢◌, sym, ap, ◌∙◌, List, [], ◌∷◌, ◌++◌, arith}
use open_deck.Dfu.Format.{StreamStatus, invalid}
use open_deck.Dfu.Backend.{Backend}
use open_deck.Dfu.Parser.{Parser, feed, feed_loop, feed_span}

module _ (b : Backend) (uid : ℕ) where
  open b use {State}

  -- `feed` returns the status that it stores.
  pub status-feed : (p : Parser State) (x : ℕ) → (feed b uid p x).1.status ≡ (feed b uid p x).0
  unfolding feed
  status-feed p x = ground arith

  status-feed_loop :
      (s : StreamStatus) (p : Parser State) (xs : List ℕ)
      → p.status ≡ s
      → (feed_loop b uid s p xs).1.status ≡ (feed_loop b uid s p xs).0
  unfolding feed_loop
  status-feed_loop s p [] e = e
  status-feed_loop s p (x ∷ xs) e =
      let (s', p') = feed b uid p x in
      ground (arith, status-feed p x, status-feed_loop s' p' xs (status-feed p x))

  -- A piece that is not rejected can be fed on its own.
  append_loop :
      (s : StreamStatus) (p : Parser State) (xs ys : List ℕ)
      → p.status ≡ s
      → let (s', p') = feed_loop b uid s p xs in
        s' ≢ invalid → feed_loop b uid s p (xs ++ ys) ≡ feed_loop b uid s' p' ys
  unfolding feed_loop
  append_loop s p [] ys e ne = refl
  append_loop s p (x ∷ xs) ys e ne =
      let (s', p') = feed b uid p x in ground (arith, append_loop s' p' xs ys (status-feed p x))

  -- A parser that is rejected takes no byte any more.
  loop_rejected :
      (p : Parser State) (ys : List ℕ)
      → p.status ≡ invalid
      → feed_loop b uid invalid p ys ≡ (invalid, p)
  unfolding feed_loop feed
  loop_rejected p [] e = refl
  loop_rejected p (y ∷ ys) e = ground arith

  -- Once rejected, always rejected: what follows changes nothing.
  append_rejected :
      (s : StreamStatus) (p : Parser State) (xs ys : List ℕ)
      → p.status ≡ s
      → (feed_loop b uid s p xs).0 ≡ invalid
      → feed_loop b uid s p (xs ++ ys) ≡ feed_loop b uid s p xs
  unfolding feed_loop
  append_rejected s p [] ys e r =
      ap (λ t. feed_loop b uid t p ys) r ∙ loop_rejected p ys (e ∙ r) ∙ (λ i. (sym r i, p))
  append_rejected s p (x ∷ xs) ys e r =
      let (s', p') = feed b uid p x in ground (arith, append_rejected s' p' xs ys (status-feed p x))

  pub feed_span-nil : (p : Parser State) → feed_span b uid p [] ≡ (p.status, p)
  unfolding feed_span feed_loop
  feed_span-nil p = refl

  -- Feeding two pieces one after the other, when the first is not rejected, is feeding them at
  -- once.
  pub feed_span-append :
      (p : Parser State) (xs ys : List ℕ)
      → let (s, p') = feed_span b uid p xs in
        s ≢ invalid → feed_span b uid p (xs ++ ys) ≡ feed_span b uid p' ys
  unfolding feed_span
  feed_span-append p xs ys ne =
      let (s', p') = feed_loop b uid p.status p xs in
      append_loop p.status p xs ys refl ne
      ∙ ap (λ s. feed_loop b uid s p' ys) (sym (status-feed_loop p.status p xs refl))

  -- No bytes make up for a piece that was rejected.
  pub feed_span-append_rejected :
      (p : Parser State) (xs ys : List ℕ)
      → (feed_span b uid p xs).0 ≡ invalid
      → feed_span b uid p (xs ++ ys) ≡ feed_span b uid p xs
  unfolding feed_span
  feed_span-append_rejected p xs ys e = append_rejected p.status p xs ys refl e
