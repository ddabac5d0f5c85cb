-- ===== src/Budgets/Tests.antt =====
-- The frame limits at the extreme budgets.
use javex.Base.{◌+◌, ◌*◌, ◌≤◌, ◌≡◌, refl, min, false, [], arith, saturating_add, saturating_mul}
use javex.Budgets.{Budgets, callback_request_limit, callback_completion_limit}
use javex.Budgets.Bounds.{callback_request_limit-eq, callback_completion_limit-eq}

abbrev largest : Budgets
largest = record {
  fuel = 1;
  max_memory = 1;
  max_input = 1;
  max_output = 1;
  max_stderr = 1;
  max_module = 1;
  max_callback_calls = 0xffff_ffff;
  max_callback_concurrency = 0xffff_ffff;
  max_callback_input = 0xffff_ffff;
  max_callback_output = 0xffff_ffff;
  env = [];
  static_mode = false;
}

abbrev usual : Budgets
usual = record largest {
  max_callback_concurrency = 2;
  max_callback_input = 1000;
  max_callback_output = 1000;
}

request_limits :
    (callback_request_limit largest ≡ 67_108_864) × (callback_request_limit usual ≡ 20_192)
unfolding callback_request_limit saturating_add saturating_mul
request_limits = (refl, refl)

callback_request_limit-eq_example :
    (callback_request_limit usual ≡ min (2 * (1000 * 6 + 2048) + 4096) 67_108_864)
    × (4096 ≤ callback_request_limit usual)
callback_request_limit-eq_example = callback_request_limit-eq usual (omega arith)

callback_completion_limit-eq_example :
    (callback_completion_limit usual ≡ min (1000 * 6 + 4096) 67_108_864)
    × (4096 ≤ callback_completion_limit usual)
callback_completion_limit-eq_example = callback_completion_limit-eq usual (omega arith)
