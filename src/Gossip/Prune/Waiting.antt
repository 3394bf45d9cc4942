-- ===== src/Gossip/Prune/Waiting.antt =====
-- Which messages wait for another round of `prune_messages_to_be_saved` (fiber/src/fiber/gossip.rs).
use mathlib.Core.Path.{subst}
use ai_ckb_backend.Common.{
  ℕ, ◌≡◌, refl, sym, ap, ◌∙◌, Bool, true, false, List, [], ◌∷◌, Option, some, none, if◌then◌else◌,
  arith, inl, inr, Bool-cases, Option-cases, is_some,
}
use ai_ckb_backend.Common.Outcome.{ok, err, panic, ◌>>=◌, >>=-Passed, ok_same}
use ai_ckb_backend.Gossip.Message.{
  ChannelAnnouncement, BroadcastMessageWithTimestamp, Cursor, cursor,
}
use ai_ckb_backend.Gossip.Cursor.{cmp_cursor}
use ai_ckb_backend.Gossip.Store.{Database, get_latest_channel_announcement}
use ai_ckb_backend.Gossip.Verify.{Host, Verified, stored, verify_and_save}
use ai_ckb_backend.Gossip.Prune.{
  Pending, Saved, Parts, get_channel_announcement, has_dependencies_available, partition,
  sort_messages, save_all, update_last_cursor, prune_messages_to_be_saved, is_gt, announcement_in,
  or_in_memory,
}

module _ (host : Host) where
  -- An update of a channel that the store has no announcement of.
  abbrev pub Waits : Database → BroadcastMessageWithTimestamp → Type 0
  Waits db (BroadcastMessageWithTimestamp.channel_update u) =
      stored (get_latest_channel_announcement host.crates u.channel_outpoint db) ≡ ok none
  Waits db (BroadcastMessageWithTimestamp.channel_announcement t c) = ⊥
  Waits db (BroadcastMessageWithTimestamp.node_announcement n) = ⊥

  -- The second list are those of the first that wait, and all of them, in order.
  pub data IsWaitingPart (db : Database)
      : List BroadcastMessageWithTimestamp → List BroadcastMessageWithTimestamp → Type 0 where
    no_more : IsWaitingPart db [] []
    still_waits :
        {m : BroadcastMessageWithTimestamp} {ms ws : List BroadcastMessageWithTimestamp}
        → Waits db m
        → IsWaitingPart db ms ws
        → IsWaitingPart db (m ∷ ms) (m ∷ ws)
    goes_on :
        {m : BroadcastMessageWithTimestamp} {ms ws : List BroadcastMessageWithTimestamp}
        → (Waits db m → ⊥)
        → IsWaitingPart db ms ws
        → IsWaitingPart db (m ∷ ms) ws

  in_store :
      (x : ℕ × ChannelAnnouncement) (other : Option (ℕ × ChannelAnnouncement))
      → ◌≡◌ {A = Verified Bool} (ok (is_some (or_in_memory (some x) other))) (ok false)
      → ⊥
  in_store x other h = ground (arith, h)

  incomplete-Waits :
      (m : BroadcastMessageWithTimestamp) (p : Pending)
      → p.messages_to_be_saved ≡ []
      → has_dependencies_available host m p ≡ ok false
      → Waits p.store m
  unfolding has_dependencies_available get_channel_announcement
  incomplete-Waits (BroadcastMessageWithTimestamp.channel_update u) p e h =
      let (found, a, b) = >>=-Passed (get_channel_announcement host u.channel_outpoint p) _ h in
      let (saved, c, d) =
        >>=-Passed (stored (get_latest_channel_announcement host.crates u.channel_outpoint p.store))
          _ a in
      elim (Option-cases saved) [
        | inl n ↦ c ∙ ap ok n
        | inr (x, s) ↦ absurd (
            in_store x (announcement_in u.channel_outpoint p.messages_to_be_saved) (
              ap
                (λ o. ok (
                  is_some
                    (or_in_memory o (announcement_in u.channel_outpoint p.messages_to_be_saved))))
                (sym s)
              ∙ ap (λ o. ok (is_some o)) (ok_same d)
              ∙ b))
      ]
  incomplete-Waits (BroadcastMessageWithTimestamp.channel_announcement t c) p e h =
      absurd (ground (arith, h))
  incomplete-Waits (BroadcastMessageWithTimestamp.node_announcement n) p e h =
      absurd (ground (arith, h))

  found_in_store :
      (saved : Option (ℕ × ChannelAnnouncement)) (outpoint : ℕ)
      (ms : List BroadcastMessageWithTimestamp)
      → ms ≡ []
      → ◌≡◌ {A = Verified Bool}
          (ok (is_some (or_in_memory saved (announcement_in outpoint ms))))
          (ok true)
      → ◌≡◌ {A = Verified (Option (ℕ × ChannelAnnouncement))} (ok saved) (ok none)
      → ⊥
  found_in_store none outpoint [] e h n = ground (arith, h)
  found_in_store (some a) outpoint [] e h n = ground (arith, n)
  found_in_store saved outpoint (m ∷ ms) e h n = ground (arith, e)

  complete-Waits :
      (m : BroadcastMessageWithTimestamp) (p : Pending)
      → p.messages_to_be_saved ≡ []
      → has_dependencies_available host m p ≡ ok true
      → Waits p.store m
      → ⊥
  unfolding has_dependencies_available get_channel_announcement
  complete-Waits (BroadcastMessageWithTimestamp.channel_update u) p e h w =
      let (found, a, b) = >>=-Passed (get_channel_announcement host u.channel_outpoint p) _ h in
      let (saved, c, d) =
        >>=-Passed (stored (get_latest_channel_announcement host.crates u.channel_outpoint p.store))
          _ a in
      found_in_store saved u.channel_outpoint p.messages_to_be_saved e
        (ap (λ o. ok (is_some o)) (ok_same d) ∙ b) (sym c ∙ w)
  complete-Waits (BroadcastMessageWithTimestamp.channel_announcement t c) p e h w = w
  complete-Waits (BroadcastMessageWithTimestamp.node_announcement n) p e h w = w

  abbrev parts_with : BroadcastMessageWithTimestamp → Parts host → Bool → Verified (Parts host)
  parts_with m parts complete =
      ok (if complete then (m ∷ parts.0, parts.1) else (parts.0, m ∷ parts.1))

  partition-IsWaitingPart :
      (ms : List BroadcastMessageWithTimestamp) (p : Pending) (parts : Parts host)
      → p.messages_to_be_saved ≡ []
      → partition host ms p ≡ ok parts
      → IsWaitingPart p.store ms parts.1
  unfolding partition
  partition-IsWaitingPart [] p parts e h =
      subst (λ (x : Parts host). IsWaitingPart p.store [] x.1) (ok_same h) no_more
  partition-IsWaitingPart (m ∷ ms) p parts e h =
      let (available, a, h1) = >>=-Passed (has_dependencies_available host m p) _ h in
      let (rest, b, h2) = >>=-Passed (partition host ms p) _ h1 in
      elim (Bool-cases available) [
        | inl c ↦
            subst (λ (x : Parts host). IsWaitingPart p.store (m ∷ ms) x.1)
              (ok_same (sym (ap (parts_with m rest) c) ∙ h2))
              (goes_on (complete-Waits m p e (a ∙ ap ok c)) (partition-IsWaitingPart ms p rest e b))
        | inr c ↦
            subst (λ (x : Parts host). IsWaitingPart p.store (m ∷ ms) x.1)
              (ok_same (sym (ap (parts_with m rest) c) ∙ h2))
              (still_waits (incomplete-Waits m p e (a ∙ ap ok c))
                (partition-IsWaitingPart ms p rest e b))
      ]

  update_last_cursor-waiting :
      (c : Cursor) (p seen : Pending)
      → update_last_cursor host c p ≡ ok seen
      → seen.messages_to_be_saved ≡ p.messages_to_be_saved
  unfolding update_last_cursor
  update_last_cursor-waiting c p seen h =
      let (o, _, b) = >>=-Passed (stored (cmp_cursor host.crates c p.last_cursor)) _ h in
      ap (λ (x : Pending). x.messages_to_be_saved) (sym (ok_same b)) ∙ same_waiting (is_gt host o)
    where
      same_waiting :
          (b : Bool)
          → (if b then record p { last_cursor = c } else p).messages_to_be_saved
            ≡ p.messages_to_be_saved
      same_waiting true = refl
      same_waiting false = refl

  abbrev after :
      BroadcastMessageWithTimestamp
      → List BroadcastMessageWithTimestamp
      → Pending
      → Verified Database
      → Verified (Saved host)
  after m ms p o = elim o [
    | ok db ↦ do
      seen ← update_last_cursor host (cursor m) (record p { store = db })
      rest ← save_all host ms seen
      ok (rest.0, m ∷ rest.1)
    | err e ↦ save_all host ms p
    | panic ↦ panic
  ]

  after-waiting :
      (m : BroadcastMessageWithTimestamp) (ms : List BroadcastMessageWithTimestamp) (p : Pending)
      (r : Saved host)
      → ((q : Pending) (x : Saved host)
          → save_all host ms q ≡ ok x
          → x.0.messages_to_be_saved ≡ q.messages_to_be_saved)
      → (o : Verified Database) → after m ms p o ≡ ok r
      → r.0.messages_to_be_saved ≡ p.messages_to_be_saved
  after-waiting m ms p r again (ok db) h =
      let (seen, a, b) =
        >>=-Passed (update_last_cursor host (cursor m) (record p { store = db })) _ h in
      let (rest, c, d) = >>=-Passed (save_all host ms seen) _ b in
      ap (λ (x : Saved host). x.0.messages_to_be_saved) (sym (ok_same d))
      ∙ again seen rest c
      ∙ update_last_cursor-waiting (cursor m) (record p { store = db }) seen a
  after-waiting m ms p r again (err e) h = again p r h
  after-waiting m ms p r again panic h = absurd (ground (arith, h))

  save_all-waiting :
      (ms : List BroadcastMessageWithTimestamp) (p : Pending) (r : Saved host)
      → save_all host ms p ≡ ok r
      → r.0.messages_to_be_saved ≡ p.messages_to_be_saved
  unfolding save_all
  save_all-waiting [] p r h = ap (λ (x : Saved host). x.0.messages_to_be_saved) (sym (ok_same h))
  save_all-waiting (m ∷ ms) p r h =
      after-waiting m ms p r (λ q x e. save_all-waiting ms q x e) (verify_and_save host m p.store) h

  -- The messages that wait after a round that does not panic are, of those that waited before it and
  -- in their order, exactly the updates of channels that the store had no announcement of before the
  -- round; an announcement that waited beside an update does not count.
  pub prune_messages_to_be_saved-IsWaitingPart :
      (p : Pending) (r : Saved host)
      → prune_messages_to_be_saved host p ≡ ok r
      → IsWaitingPart p.store p.messages_to_be_saved r.0.messages_to_be_saved
  unfolding prune_messages_to_be_saved
  prune_messages_to_be_saved-IsWaitingPart p r h =
      let (parts, a, b) =
        >>=-Passed (partition host p.messages_to_be_saved (record p { messages_to_be_saved = [] }))
          _ h in
      subst (IsWaitingPart p.store p.messages_to_be_saved)
        (sym (
          save_all-waiting (sort_messages host parts.0)
            (record p { messages_to_be_saved = parts.1 }) r b))
        (partition-IsWaitingPart p.messages_to_be_saved (record p { messages_to_be_saved = [] })
          parts refl a)
