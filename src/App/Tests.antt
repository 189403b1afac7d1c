-- ===== src/App/Tests.antt =====
-- Runs of the notification worker on small inputs.
use d_api.Base.{ℕ, inl, String, false, some, []}
use d_api.Base.Maps.{lookup}
use d_api.Store.Outbox.{Job}
use d_api.Store.OutboxTests.{two_rows}
use d_api.App.Worker.{Event, Group, group_key, World, External, run, key_of}
use d_api.App.Worker.Settles.{Kept, run-Kept}

abbrev low : ℕ → Event
low t = record {
  kind = "balance";
  state = "firing";
  severity = "warning";
  previous = "";
  upstream_id = 4;
  upstream_name = "east";
  notification_number = 1;
  count = 1;
  details = [];
  at = t;
}

abbrev world : World String
world = record { outbox = two_rows; statements = 0; delivered = [] }

-- Channels answer an error.
abbrev outside : External String
outside = record {
  decode = λ p. some (low 7);
  clock = λ n. 100;
  breaks = λ n. false;
  line = λ e. e.kind;
  deliver = λ c e. false;
  stopped = λ n. false;
  error_text = "notification delivery failed";
}

run-Kept_example : Kept 2 (run outside (λ id. false) world).0
unfolding lookup
run-Kept_example =
    run-Kept outside 2 (λ id. false) world (λ p bad. absurd cc) (inl (λ gone. absurd cc))

abbrev job : ℕ → Job String
job id = record { id = id; channel_id = 3; payload = "low"; attempts = 1; lease_version = 1 }

abbrev balance_group : Group
balance_group = key_of outside (job 1) (low 7)
