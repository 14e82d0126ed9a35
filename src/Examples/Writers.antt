-- ===== src/Examples/Writers.antt =====
-- A writer whose process has ended, and its lease.
use ditch.Prelude.{
  ◌≡◌, refl, true, false, none, some, [], ◌∷◌, has_key, lookup, remove, member, values, text,
}
use ditch.Core.{WorkspaceLease}
use ditch.Store.Reservations.{release_writer as delete_reservation, reserved_group}
use ditch.Runtime.State.{RuntimeState}
use ditch.Runtime.Writers.{release_writer, settle_reservation, drop_reservation, dropped}
use ditch.Runtime.Writers.Release.{IsEnded, release-IsEnded}
use ditch.Examples.Claims.{calm, idle_board}
use ditch.Examples.Tables.{one_card}

abbrev desk_lease : WorkspaceLease
desk_lease = record {
  coordinator_group = none;
  target = text "local";
  root = text "/w";
  unconfined = false;
}

abbrev writing : RuntimeState
writing = record idle_board {
  store = record one_card {
    reservations =
        record { agent_id = 900; lease = desk_lease; process_group_id = some 77; validator = false }
        ∷ [];
  };
  writer_leases = (900, desk_lease) ∷ [];
}

held_before : has_key 900 writing.writer_leases ≡ true
unfolding has_key lookup
held_before = refl

free_after : has_key 900 (release_writer calm 900 writing).writer_leases ≡ false
unfolding has_key lookup release_writer member values settle_reservation reserved_group
    drop_reservation dropped delete_reservation remove
free_after = refl

release-IsEnded_example : IsEnded calm 900 900 writing (release_writer calm 900 writing)
release-IsEnded_example = release-IsEnded calm 900 900 writing held_before free_after
