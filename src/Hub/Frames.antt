-- ===== src/Hub/Frames.antt =====
-- Which frame each browser gets from one publication.
use codex_token_meter.Prelude.{
  ℕ, String, true, false, Option, none, some, List, [], ◌∷◌, Table, lookup, lookup-upsert, ◌==◌,
  text_eq, ◌≡◌, refl, Bool-cases, inl, inr, lookup-upsert_self,
}
use codex_token_meter.Hub.{
  Message, Client, Hub, Publisher, offer, try_send, try_receive, frame_of, remembered, frame_by,
  hand, plain, frame_for, deliver, publish,
}

-- Whatever waits in a channel, the new message takes its place.
offer_newest : (m : Message) (slot : Option Message) → offer m slot ≡ some m
unfolding offer try_send try_receive
offer_newest m none = refl
offer_newest m (some old) = refl

-- The channel with the new message in place of what waits, where there is one.
abbrev pub newest : Option Message → Client → Client
newest none c = c
newest (some m) c = record c { slot = some m }

module _ {S : Type 0} (p : Publisher S) where
  abbrev pub Frames : Type 0
  Frames = Table String (Option Message)

  abbrev Keeps : Frames → Frames → Type 0
  Keeps before after =
      (k : String) (fr : Option Message) → lookup k before ≡ some fr → lookup k after ≡ some fr

  remembered-lookup :
      (f : String → S → Option Message × S) (q : String) (frames : Frames) (s : S)
      (o : Option (Option Message))
      → lookup (p.range_key q) frames ≡ o
      → lookup (p.range_key q) (remembered p f q frames s o).1
        ≡ some (remembered p f q frames s o).0
  remembered-lookup f q frames s none h = lookup-upsert_self (p.range_key q) (λ _. (f q s).0) frames
  remembered-lookup f q frames s (some fr) h = h

  remembered-Keeps :
      (f : String → S → Option Message × S) (q : String) (frames : Frames) (s : S)
      (o : Option (Option Message))
      → lookup (p.range_key q) frames ≡ o
      → Keeps frames (remembered p f q frames s o).1
  remembered-Keeps f q frames s (some fr) h k g found = found
  remembered-Keeps f q frames s none h k g found = elim (Bool-cases (p.range_key q == k)) [
    | inl here ↦
        let same : p.range_key q ≡ k = (text_eq.same_iff (p.range_key q) k).0 here in
        absurd (none_some (rw same at h))
    | inr away ↦ rw (lookup-upsert, away) found
  ]
    where
      none_some : lookup k frames ≡ none → ⊥
      none_some e = cc

  frame_by-Keeps :
      (o : Option String) (n : Option (String → S → Option Message × S)) (m : Message)
      (frames : Frames) (s : S)
      → Keeps frames (frame_by p o n m frames s).1
  unfolding frame_of
  frame_by-Keeps (some q) (some f) m frames s = remembered-Keeps f q frames s _ refl
  frame_by-Keeps none n m frames s = λ k g found. found
  frame_by-Keeps (some q) none m frames s = λ k g found. found

  deliver-Keeps :
      (seq : ℕ) (cs : List Client) (frames : Frames) (s : S)
      → Keeps frames (deliver p seq cs frames s).1
  unfolding deliver frame_for
  deliver-Keeps seq [] frames s k g found = found
  deliver-Keeps seq (c ∷ cs) frames s k g found =
      deliver-Keeps seq cs _ _ k g
        (frame_by-Keeps c.subscription p.numbers (plain p seq c) frames s k g found)

  -- What a client holds behind a publication that computed `frames`: the plain message of this
  -- revision, or the one frame of its query's key, nil leaving the channel as it is.
  abbrev pub ServedBy : Option String → ℕ → Frames → Client → Client → Type 0
  ServedBy none seq frames c c' = c' ≡ record c { slot = some (plain p seq c) }
  ServedBy (some q) seq frames c c' =
      (fr : Option Message) × (lookup (p.range_key q) frames ≡ some fr) × (c' ≡ newest fr c)

  abbrev pub AllServed : ℕ → Frames → List Client → List Client → Type 0
  AllServed seq frames [] [] = Unit
  AllServed seq frames (c ∷ cs) (c' ∷ cs') =
      ServedBy c.subscription seq frames c c' × AllServed seq frames cs cs'
  AllServed seq frames _ _ = ⊥

  hand-newest : (fr : Option Message) (c : Client) → hand p c fr ≡ newest fr c
  hand-newest none c = refl
  hand-newest (some m) c = rw (offer_newest m c.slot) refl

  ServedBy-Keeps :
      (o : Option String) (seq : ℕ) (a b : Frames) (c c' : Client)
      → Keeps a b
      → ServedBy o seq a c c'
      → ServedBy o seq b c c'
  ServedBy-Keeps none seq a b c c' keeps h = h
  ServedBy-Keeps (some q) seq a b c c' keeps (fr, found, h) = (fr, keeps _ fr found, h)

  frame_by-ServedBy :
      (o : Option String) (f : String → S → Option Message × S) (seq : ℕ) (c : Client)
      (frames : Frames) (s : S)
      → ServedBy o seq
          (frame_by p o (some f) (plain p seq c) frames s).1
          c
          (hand p c (frame_by p o (some f) (plain p seq c) frames s).0)
  unfolding frame_of
  frame_by-ServedBy none f seq c frames s = hand-newest (some (plain p seq c)) c
  frame_by-ServedBy (some q) f seq c frames s =
      (_, remembered-lookup f q frames s _ refl, hand-newest _ c)

  deliver-AllServed :
      (f : String → S → Option Message × S) (seq : ℕ) (cs : List Client) (frames : Frames) (s : S)
      → p.numbers ≡ some f
      → AllServed seq (deliver p seq cs frames s).1 cs (deliver p seq cs frames s).0
  unfolding deliver frame_for
  deliver-AllServed f seq [] frames s set = tt
  deliver-AllServed f seq (c ∷ cs) frames s set = (
    ServedBy-Keeps c.subscription seq _ _ c _ (deliver-Keeps seq cs _ _)
        (simp set (frame_by-ServedBy c.subscription f seq c frames s)),
    deliver-AllServed f seq cs _ _ set,
  )

  -- Every frame is what `f` gave for a query of its key.
  abbrev pub Computed : (String → S → Option Message × S) → Frames → Type 0
  Computed f frames =
      (k : String) (fr : Option Message)
      → lookup k frames ≡ some fr
      → (q : String) × (s : S) × (p.range_key q ≡ k) × (fr ≡ (f q s).0)

  remembered-Computed :
      (f : String → S → Option Message × S) (q : String) (frames : Frames) (s : S)
      (o : Option (Option Message))
      → Computed f frames
      → Computed f (remembered p f q frames s o).1
  remembered-Computed f q frames s (some fr) h k g found = h k g found
  remembered-Computed f q frames s none h k g found = elim (Bool-cases (p.range_key q == k)) [
    | inl here ↦
        let same : p.range_key q ≡ k = (text_eq.same_iff (p.range_key q) k).0 here in
        (q, s, same, some_some (rw (lookup-upsert, here) at found))
    | inr away ↦ h k g (rw (lookup-upsert, away) at found)
  ]
    where
      some_some : some (f q s).0 ≡ some g → g ≡ (f q s).0
      some_some e = cc

  deliver-Computed :
      (f : String → S → Option Message × S) (seq : ℕ) (cs : List Client) (frames : Frames) (s : S)
      → p.numbers ≡ some f
      → Computed f frames
      → Computed f (deliver p seq cs frames s).1
  unfolding deliver frame_for frame_of
  deliver-Computed f seq [] frames s set h = h
  deliver-Computed f seq (c ∷ cs) frames s set h =
      deliver-Computed f seq cs _ _ set (simp set (frame_by-Computed c.subscription))
    where
      frame_by-Computed :
          (o : Option String) → Computed f (frame_by p o (some f) (plain p seq c) frames s).1
      frame_by-Computed none = h
      frame_by-Computed (some q) = remembered-Computed f q frames s _ h

  none-Computed : (f : String → S → Option Message × S) → Computed f []
  unfolding lookup
  none-Computed f k fr h = absurd (none_some h)
    where
      none_some : none ≡ some fr → ⊥
      none_some e = cc

  -- On a marked hub whose `numbers` is set, one publication clears the mark, and there is one frame
  -- for each key which `numbers` gave for a query of that key, such that every subscriber's channel holds the frame of its query's key (or what it
  -- held, where the key has nothing new) and every other channel the message of the last revision,
  -- whatever a slow reader had left in it.
  pub publish-AllServed :
      (f : String → S → Option Message × S) (h : Hub) (s : S)
      → p.numbers ≡ some f
      → h.dirty ≡ true
      → (frames : Frames) × Computed f frames
        × AllServed h.seq frames h.clients (publish p h s).0.clients
        × ((publish p h s).0.dirty ≡ false)
  unfolding publish
  publish-AllServed f h s set marked = rw marked (
    (deliver p h.seq h.clients [] s).1,
    deliver-Computed f h.seq h.clients [] s set (none-Computed f),
    deliver-AllServed f h.seq h.clients [] s set,
    refl,
  )
