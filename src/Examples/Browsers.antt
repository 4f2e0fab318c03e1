-- ===== src/Examples/Browsers.antt =====
-- The theorem about a publication on a hub with three browsers, two of them on the same range.
use codex_token_meter.Prelude.{ℕ, suc, String, true, false, Option, none, some, [], ◌∷◌, ◌≡◌, refl}
use codex_token_meter.Hub.{Message, Client, Hub, Publisher, publish}
use codex_token_meter.Hub.Frames.{Frames, Computed, AllServed, publish-AllServed}

abbrev count_frame : String → ℕ → Option Message × ℕ
count_frame query n = (some (record { id = n; payload = query; event = "numbers" }), suc n)

abbrev publisher : Publisher ℕ
publisher = record {
  snapshot = "all";
  notification = some "changed";
  numbers = some count_frame;
  range_key = λ q. "today";
}

abbrev slow : Client
slow = record {
  notify = true;
  subscription = none;
  slot = some (record { id = 1; payload = "old"; event = "" });
}

abbrev on_range : Client
on_range = record { notify = true; subscription = some "range=today"; slot = none }

abbrev three : Hub
three = record {
  seq = 5;
  full_seq = 2;
  task_seq = 0;
  dirty = true;
  clients = slow ∷ on_range ∷ on_range ∷ [];
  task_clients = [];
}

publish-AllServed_example :
    (frames : Frames publisher) × Computed publisher count_frame frames
    × AllServed publisher 5 frames three.clients (publish publisher three 0).0.clients
    × ((publish publisher three 0).0.dirty ≡ false)
publish-AllServed_example = publish-AllServed publisher count_frame three 0 refl refl
