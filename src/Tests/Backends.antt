-- ===== src/Tests/Backends.antt =====
-- A backend that is registered, loaded and leased.
use llama.Prelude.{false, true, [], ◌∷◌}
use llama.Prelude.Int.{pos}
use llama.Backend.Registry.{BackendDescriptor, BackendMode, begin_acquire, load_finished}
use llama.Backend.Leases.{World, registered}

abbrev local : BackendDescriptor
local = record {
  name = "local";
  mode = BackendMode.steppable;
  models = "qwen" ∷ [];
  supports_sequence_steps = true;
  supports_full_request = false;
  supports_streaming = true;
  supports_cancellation = true;
  priority = pos 1;
  keepalive = 300000;
}

abbrev fresh : World
fresh = registered local 5

abbrev loading_one : World
loading_one = record fresh { entry = (begin_acquire fresh.entry 6).0; loaders = 1 }

abbrev loaded : World
loaded = record loading_one { entry = load_finished loading_one.entry 42 9; loaders = 0; out = 1 }

abbrev leased_twice : World
leased_twice = record loaded { entry = (begin_acquire loaded.entry 10).0; out = 2 }
