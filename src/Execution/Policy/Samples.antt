-- ===== src/Execution/Policy/Samples.antt =====
-- A small fleet, a finder that reports one pattern, and the jobs that the tests run.
use mycellm.Prelude.{String, false, some, List, [], ◌∷◌, ◌==◌, length, if◌then◌else◌}
use mycellm.Prelude.Text.{Text, codes}
use mycellm.Privacy.{Finder, scan_with_policy}
use mycellm.Execution.Models.{Target, Job, plain}
use mycellm.Execution.Policy.{EgressPolicy, new_policy}

-- Any text that is not empty holds an OpenAI key, from its start to its end.
abbrev pub key_finder : Finder
key_finder regex text = elim text [
  | [] ↦ []
  | c ∷ s ↦ if regex == "sk-[a-zA-Z0-9]{16,}" then (0, length (c ∷ s)) ∷ [] else []
]

abbrev pub no_finder : Finder
no_finder regex text = []

abbrev pub secret : Text
secret = codes "sk-0123456789abcdefXYZ"

abbrev pub laptop : Target
laptop = record {
  model = "qwen-0.5b";
  kind = "local";
  peer_id = "";
  serving_group_id = "";
  network_ids = [];
  tok_s = 20000;
  roles = [];
  params_b = 500;
}

abbrev pub home_peer : Target
home_peer = record {
  model = "qwen-35b";
  kind = "peer";
  peer_id = "p1";
  serving_group_id = "";
  network_ids = "home" ∷ [];
  tok_s = 9000;
  roles = [];
  params_b = 35000;
}

abbrev pub public_peer : Target
public_peer = record {
  model = "llama-8b";
  kind = "peer";
  peer_id = "p2";
  serving_group_id = "";
  network_ids = [];
  tok_s = 30000;
  roles = "proposer" ∷ "direct" ∷ [];
  params_b = 8000;
}

abbrev pub fleet : List Target
fleet = public_peer ∷ home_peer ∷ laptop ∷ []

abbrev pub guarded : EgressPolicy
guarded = new_policy (scan_with_policy key_finder secret) " Trusted" (some ("home" ∷ [])) false

abbrev pub question : String → String → Text → Job
question model trust text = record {
  job_id = "job_1";
  model = model;
  messages = record { role = "user"; content = plain text } ∷ [];
  temperature = 70;
  max_tokens = 256;
  network_ids = some ("home" ∷ []);
  token_budget = 0;
  trust = trust;
  fanout = 0;
}
