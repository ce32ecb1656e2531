-- ===== src/Loader/Configuration/Comparison.antt =====
-- The `==` of the types that a saved configuration holds: it is true of equal values alone.
use text.Mathlib.Text
use text.Mathlib.TextEquality.{eq_iff}
use rust_torch.Base.{
  ℕ, String, ◌≡◌, refl, ap, Bool, true, false, Option, none, some, ◌==◌, eq_of_==, ==_refl, eq_bool,
  eq_of_eq_bool, eq_bool_refl,
}
use rust_torch.Loader.Configuration.{CheckpointPinRequest, CheckpointPinStatus}

pub record Comparison (A : Type 0) : Type 0 where
  pub test : A → A → Bool
  pub test_refl : (a : A) → test a a ≡ true
  pub eq_of_test : (a b : A) → test a b ≡ true → a ≡ b

abbrev pub numbers : Comparison ℕ
numbers = record { test = ◌==◌; test_refl = ==_refl; eq_of_test = eq_of_== }

abbrev pub flags : Comparison Bool
flags = record { test = eq_bool; test_refl = eq_bool_refl; eq_of_test = eq_of_eq_bool }

abbrev pub texts : Comparison String
texts = record {
  test = Text.◌==◌;
  test_refl = λ s. (eq_iff s s).1 refl;
  eq_of_test = λ s t h. (eq_iff s t).0 h;
}

module _ {A : Type 0} (c : Comparison A) where
  abbrev pub test_option : Option A → Option A → Bool
  test_option none none = true
  test_option none (some b) = false
  test_option (some a) none = false
  test_option (some a) (some b) = c.test a b

  pub test_option_refl : (a : Option A) → test_option a a ≡ true
  test_option_refl none = refl
  test_option_refl (some a) = c.test_refl a

  pub eq_of_test_option : (a b : Option A) → test_option a b ≡ true → a ≡ b
  eq_of_test_option none none h = refl
  eq_of_test_option none (some b) h = cc
  eq_of_test_option (some a) none h = cc
  eq_of_test_option (some a) (some b) h = ap some (c.eq_of_test a b h)

  abbrev pub options : Comparison (Option A)
  options = record {
    test = test_option;
    test_refl = test_option_refl;
    eq_of_test = eq_of_test_option;
  }

abbrev pub test_request : CheckpointPinRequest → CheckpointPinRequest → Bool
test_request CheckpointPinRequest.disabled CheckpointPinRequest.disabled = true
test_request CheckpointPinRequest.auto CheckpointPinRequest.auto = true
test_request (CheckpointPinRequest.explicit_cuda i) (CheckpointPinRequest.explicit_cuda j) = i == j
test_request _ _ = false

pub test_request_refl : (a : CheckpointPinRequest) → test_request a a ≡ true
test_request_refl CheckpointPinRequest.disabled = refl
test_request_refl CheckpointPinRequest.auto = refl
test_request_refl (CheckpointPinRequest.explicit_cuda i) = ==_refl i

pub eq_of_test_request : (a b : CheckpointPinRequest) → test_request a b ≡ true → a ≡ b
eq_of_test_request CheckpointPinRequest.disabled CheckpointPinRequest.disabled h = refl
eq_of_test_request CheckpointPinRequest.disabled CheckpointPinRequest.auto h = cc
eq_of_test_request CheckpointPinRequest.disabled (CheckpointPinRequest.explicit_cuda j) h = cc
eq_of_test_request CheckpointPinRequest.auto CheckpointPinRequest.disabled h = cc
eq_of_test_request CheckpointPinRequest.auto CheckpointPinRequest.auto h = refl
eq_of_test_request CheckpointPinRequest.auto (CheckpointPinRequest.explicit_cuda j) h = cc
eq_of_test_request (CheckpointPinRequest.explicit_cuda i) CheckpointPinRequest.disabled h = cc
eq_of_test_request (CheckpointPinRequest.explicit_cuda i) CheckpointPinRequest.auto h = cc
eq_of_test_request (CheckpointPinRequest.explicit_cuda i) (CheckpointPinRequest.explicit_cuda j) h =
    ap CheckpointPinRequest.explicit_cuda (eq_of_== i j h)

abbrev pub requests : Comparison CheckpointPinRequest
requests = record {
  test = test_request;
  test_refl = test_request_refl;
  eq_of_test = eq_of_test_request;
}

abbrev pub test_status : CheckpointPinStatus → CheckpointPinStatus → Bool
test_status CheckpointPinStatus.disabled CheckpointPinStatus.disabled = true
test_status CheckpointPinStatus.disabled_no_accelerator
      CheckpointPinStatus.disabled_no_accelerator =
    true
test_status (CheckpointPinStatus.cuda i) (CheckpointPinStatus.cuda j) = i == j
test_status _ _ = false

pub test_status_refl : (a : CheckpointPinStatus) → test_status a a ≡ true
test_status_refl CheckpointPinStatus.disabled = refl
test_status_refl CheckpointPinStatus.disabled_no_accelerator = refl
test_status_refl (CheckpointPinStatus.cuda i) = ==_refl i

pub eq_of_test_status : (a b : CheckpointPinStatus) → test_status a b ≡ true → a ≡ b
eq_of_test_status CheckpointPinStatus.disabled CheckpointPinStatus.disabled h = refl
eq_of_test_status CheckpointPinStatus.disabled CheckpointPinStatus.disabled_no_accelerator h = cc
eq_of_test_status CheckpointPinStatus.disabled (CheckpointPinStatus.cuda j) h = cc
eq_of_test_status CheckpointPinStatus.disabled_no_accelerator CheckpointPinStatus.disabled h = cc
eq_of_test_status CheckpointPinStatus.disabled_no_accelerator
      CheckpointPinStatus.disabled_no_accelerator h =
    refl
eq_of_test_status CheckpointPinStatus.disabled_no_accelerator (CheckpointPinStatus.cuda j) h = cc
eq_of_test_status (CheckpointPinStatus.cuda i) CheckpointPinStatus.disabled h = cc
eq_of_test_status (CheckpointPinStatus.cuda i) CheckpointPinStatus.disabled_no_accelerator h = cc
eq_of_test_status (CheckpointPinStatus.cuda i) (CheckpointPinStatus.cuda j) h =
    ap CheckpointPinStatus.cuda (eq_of_== i j h)

abbrev pub statuses : Comparison CheckpointPinStatus
statuses = record {
  test = test_status;
  test_refl = test_status_refl;
  eq_of_test = eq_of_test_status;
}
