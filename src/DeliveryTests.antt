-- ===== src/DeliveryTests.antt =====
-- A concrete delivery that nothing disturbs.
use enterprise_communication.Prelude.{[], ◌∷◌, ◌≡◌, refl, none, some}
use enterprise_communication.Text.{text, strip, require_non_empty_text}
use enterprise_communication.Errors.{ok}
use enterprise_communication.Storage.Db.{Db}
use enterprise_communication.Accounts.Capabilities.{
  parse_stored_communication_capabilities, is_mail_send_executable,
}
use enterprise_communication.Accounts.Model.{ConnectorAccountRecord, to_record}
use enterprise_communication.Accounts.Model.ConnectorAccountStatus.{active}
use enterprise_communication.Workflow.Model.{WorkflowAction, executed, optional_text}
use enterprise_communication.Workflow.Execution.{connector_account_is_usable, creates_for_account}
use enterprise_communication.Workflow.Execution.{execute}
use enterprise_communication.Workflow.Delivering.{IsStored, undisturbed}
use enterprise_communication.Workflow.Delivered.{IsReady, command_of}
use enterprise_communication.Workflow.Completed.{done_rows, execute-undisturbed}
use enterprise_communication.Tests.{
  owner, delivers, approved_reply, mailbox, rows, resolves_all, one_action,
}

abbrev mailbox_record : ConnectorAccountRecord
mailbox_record = record {
  id = 3;
  user_id = 2;
  provider = text "gmail";
  external_account_id = text "a@b.c";
  credential_ref = some (text "ref");
  status = active;
  created_at = 0;
  updated_at = 0;
  granted_capabilities = none;
  display_identity = none;
}

approved_reply-IsStored : IsStored approved_reply
unfolding require_non_empty_text strip optional_text
approved_reply-IsStored = record {
  proposed = refl;
  body = refl;
  message = refl;
  consistent = record {
    body = refl;
    approval = refl;
    rejection = refl;
    execution = refl;
    failure = refl;
    target = refl;
  };
}

rows-IsReady :
    IsReady resolves_all rows 7 2 approved_reply mailbox mailbox_record 3 (text "yes") (text "m")
unfolding require_non_empty_text strip to_record connector_account_is_usable creates_for_account
    parse_stored_communication_capabilities is_mail_send_executable
rows-IsReady = record {
  found = refl;
  one = one_action 7 approved_reply;
  stored = approved_reply-IsStored;
  approval = refl;
  targets_account = refl;
  targets_message = refl;
  reply = refl;
  mailbox = refl;
  readable = refl;
  usable = refl;
  routed = refl;
  slug = refl;
}

abbrev executed_reply : WorkflowAction
executed_reply = record approved_reply { status = executed; executed_at = some 9 }

abbrev executed_rows : Db
executed_rows =
    done_rows resolves_all rows 7 2 approved_reply mailbox mailbox_record 3 (text "yes") (text "m")
      rows-IsReady 9

execute-undisturbed_example :
    execute resolves_all delivers 9 7 owner (undisturbed rows rows) ≡ (record {
      sent = command_of approved_reply mailbox_record 3 (text "yes") (text "m") ∷ [];
      result = ok executed_reply;
      world = undisturbed executed_rows executed_rows;
    })
execute-undisturbed_example =
    execute-undisturbed resolves_all rows 7 2 approved_reply mailbox mailbox_record 3 (text "yes")
      (text "m") rows-IsReady 9 owner delivers refl refl
