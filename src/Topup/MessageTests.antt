-- ===== src/Topup/MessageTests.antt =====
-- Runs of the messages to receivers (apps/api/src/topup/receiver-notification.ts).
use ticash.Prelude.{◌≡◌, ◌≤◌, refl, true, false, some, List, [], ◌∷◌, ok, err}
use ticash.Topup.Repository.Types.{delivered}
use ticash.Topup.Repository.Updates.{
  TransactionUpdate, keep, give, update_transaction, notification_for, receiver_language,
}
use ticash.Topup.Repository.Tests.{paid_recharge, empty_store}
use ticash.Topup.Notifications.{
  Outbox, accepted_sent, refused_by_provider, claim_notification, retry,
}
use ticash.Topup.Messages.{MessageStep, retried, changed, run, open_messages, handed_once}

-- The provider has delivered 650 gourdes.
abbrev delivery : TransactionUpdate
delivery = record {
  status = give delivered;
  payment_status = keep;
  provider_transaction_id = give (some 77);
  operator_transaction_id = keep;
  payment_authorization_id = keep;
  payment_provider = keep;
  payment_session_id = keep;
  payment_provider_transaction_id = keep;
  payment_recovery_code = keep;
  checkout_resume_token_hash = keep;
  failure_code = keep;
  receiver_value_confirmed = give true;
  delivered_value = give (some 65000000000);
  delivered_currency = keep;
  delivered_at = give (some 1500);
  failed_at = keep;
  refunded_at = keep;
  customer_hidden_at = keep;
}

abbrev paid_outbox : Outbox
paid_outbox = record {
  store = record empty_store { transactions = (1, paid_recharge) ∷ [] };
  handed = [];
}

-- The sender refuses first, then it does not answer, and then it would accept.
abbrev tries : List MessageStep
tries =
    changed 1500 1 delivery
    ∷ retried (λ _. ok refused_by_provider) 1600 1
    ∷ retried (λ _. err tt) 1700 1
    ∷ changed 1750 1 delivery
    ∷ retried (λ _. ok (accepted_sent (some 5))) 1800 1
    ∷ []

tries_run : (run tries paid_outbox).handed ≡ (1, false) ∷ (1, true) ∷ []
unfolding update_transaction notification_for receiver_language retry claim_notification
tries_run = refl

handed_once_example : open_messages 1 (run tries paid_outbox).handed ≤ 1
handed_once_example = handed_once 1 tries paid_outbox refl
