-- ===== src/Broadcaster/Examples.antt =====
-- The theorem about pkg/broadcaster/broadcaster.go at a concrete run, and a channel that was full once.
use kine.Prelude.{ℕ, zero, suc, ◌≡◌, refl, true, false, none, some, [], ◌∷◌, length, get_last?}
use kine.Broadcaster.Channels.{
  Channel, Broadcaster, new_channel, send_open, receive, Reached, here, more, subscribed,
  streamed_item, canceled, received_item,
}
use kine.Broadcaster.Delivered.{delivered, AllFaithful, Reached-AllFaithful}

-- two subscribers; the second comes after the first item
abbrev some_run : Broadcaster ℕ
some_run = record {
  running = true;
  channels =
      record { is_open = true; buffer = 8 ∷ []; slow = 0; received = 7 ∷ []; streamed = 7 ∷ 8 ∷ [] }
      ∷ record { is_open = false; buffer = 8 ∷ []; slow = 0; received = []; streamed = 8 ∷ [] }
      ∷ [];
}

some_run-Reached : Reached some_run
some_run-Reached =
    more
      (more
        (more (more (more (more here (subscribed none)) (streamed_item 7 refl)) (subscribed none))
          (received_item 0))
        (streamed_item 8 refl))
      (canceled 1)

Reached-AllFaithful_example : AllFaithful some_run
Reached-AllFaithful_example = Reached-AllFaithful some_run-Reached

abbrev send_up_to : ℕ → Channel ℕ → Channel ℕ
send_up_to zero c = c
send_up_to (suc n) c = send_open n (send_up_to n c)

-- 100 items fill the channel; the next one, 100, finds no room; the reader then takes one, before the
-- goroutine that is to close the channel has run, and 101 is sent
abbrev with_gap : Channel ℕ
with_gap = send_open 101 (receive (send_up_to 101 new_channel))

lost_between : get_last? (delivered with_gap) ≡ some 101
lost_between = refl

lost_one : length (delivered with_gap) ≡ 101
lost_one = refl

still_open : with_gap.is_open ≡ true
still_open = refl
