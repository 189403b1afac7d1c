-- ===== src/Netguard/Tests.antt =====
-- A name that resolves to a public address and a private one.
use d_api.Base.{ℕ, ◌≡◌, refl, true, false, none, some, [], ◌∷◌, nat_beq, string_key}
use d_api.Netguard.{Net, dial_context, blocked_hostname, blocked_ip, dial_each}
use d_api.Netguard.Guarded.{IsSafe, dial_context-IsSafe}

-- An address is a number, and 10 is private.
abbrev net : Net ℕ
net = record {
  split_host_port = λ address. some (address, "443");
  to_lower = λ s. s;
  trim_space = λ s. s;
  trim_dot = λ s. s;
  contains = λ s t. true;
  has_suffix = λ s t. false;
  parse_ip = λ s. none;
  parse_port = λ s. some 443;
  is_special = λ ip. nat_beq ip 10;
  to_4 = λ ip. some (ip, 0, 0, 1);
  lookup_ip = λ host. some (8 ∷ 10 ∷ []);
  connects = λ network ip port. false;
}

dial_run : (dial_context net "tcp" "api.example.com").tried ≡ 8 ∷ []
unfolding dial_context blocked_hostname blocked_ip dial_each
dial_run = refl

dial_context-IsSafe_example : IsSafe net "tcp" "443" (dial_context net "tcp" "api.example.com")
dial_context-IsSafe_example =
    dial_context-IsSafe net "tcp" "api.example.com" "api.example.com" "443" refl
