-- ===== src/RateLimit/Examples.antt =====
-- Runs of the limiters on small inputs.
use auth_all.Prelude.{
  ◌≡◌, refl, true, [], ◌∷◌, Str, codes, str_beq, arith, find_where, update_where,
}
use auth_all.RateLimit.{
  Memory, Key, Rule, Counter, scope_ip, scope_email, valid_rules, decide, decide_rules, judge,
  applies, counter_key, subject, scope_name, count_attempt, counted_up,
}
use auth_all.RateLimit.Window.{granted, granted-window}
use auth_all.RateLimit.Decisions.{answers, answers-memory, decide-retry, memory_answers}

abbrev two_left : Memory
two_left = record {
  limit = 3;
  window = 60;
  buckets = record { id = codes "a"; count = 1; start = 100 } ∷ [];
}

granted-window_example : granted two_left (codes "a") (101 ∷ 102 ∷ 103 ∷ 159 ∷ []) ≡ 2
unfolding find_where str_beq
granted-window_example =
    granted-window two_left (codes "a") (record { id = codes "a"; count = 1; start = 100 })
      (101 ∷ 102 ∷ 103 ∷ 159 ∷ []) refl refl

abbrev same : Str → Str
same s = s

abbrev sign_in : Key
sign_in = record {
  operation = codes "sign-in";
  ip = codes "::1";
  email = [];
  user_id = [];
  provider = [];
}

abbrev one_rule : Rule
one_rule = record { operation = codes "sign-in"; scope = scope_ip; limit = 1; window = 60 }

answers-memory_example :
    answers same same same (one_rule ∷ []) [] sign_in (0 ∷ 10 ∷ 60 ∷ [])
    ≡ memory_answers
        (record { limit = 1; window = 60; buckets = [] })
        (codes "k")
        (0 ∷ 10 ∷ 60 ∷ [])
unfolding applies subject str_beq
answers-memory_example =
    answers-memory same same same one_rule sign_in (codes "k") (0 ∷ 10 ∷ 60 ∷ []) (omega arith) refl

abbrev used : Counter
used = record { key = codes "sign-in|ip|::1"; window_start = 0; count = 1 }

decide-retry_example :
    (decide same same same
      (one_rule ∷ [])
      (decide same same same (one_rule ∷ []) (used ∷ []) sign_in 10).1
      sign_in
      60).0.allowed
    ≡ true
unfolding decide decide_rules judge applies subject counter_key scope_name count_attempt counted_up
    find_where update_where str_beq
decide-retry_example =
    decide-retry same same same one_rule (used ∷ []) sign_in 10 60 (omega arith) refl (ground arith)

-- The default rules of the sign-in flow are accepted.
default_rules-valid :
    valid_rules (
      record { operation = codes "sign-in"; scope = scope_email; limit = 5; window = 900 }
      ∷ record { operation = codes "sign-in"; scope = scope_ip; limit = 20; window = 60 }
      ∷ [])
    ≡ true
unfolding valid_rules
default_rules-valid = refl
