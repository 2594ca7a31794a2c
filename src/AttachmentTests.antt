-- ===== src/AttachmentTests.antt =====
-- Concrete runs of the attachment policy and of the scanner's protocol.
use enterprise_communication.Prelude.{
  ◌≡◌, refl, true, none, some, List, [], ◌∷◌, ◌++◌, arith, length, drop,
}
use enterprise_communication.Text.{text, strip}
use enterprise_communication.Text.Parts.{strip_of, first_line}
use enterprise_communication.Errors.{ok}
use enterprise_communication.Attachments.Clamd.{
  Bytes, pack, instream_frames, framed, recv_bounded, clean, map_clamd_response,
}
use enterprise_communication.Attachments.Framing.{IsFraming, instream_frames-IsFraming}
use enterprise_communication.Attachments.Receiving.{joined, IsReceived, recv_bounded-IsReceived}
use enterprise_communication.Attachments.Model.{txt, AttachmentContent, ZipInfo, Platform}
use enterprise_communication.Attachments.Archive.{Inventory, zip_member_inventory}
use enterprise_communication.Attachments.Bounds.{
  total_size, IsBoundedArchive, zip_member_inventory-IsBoundedArchive,
}
use enterprise_communication.Attachments.Signatures.{xlsx_limits, has_hostile_binary_signature}
use enterprise_communication.Attachments.Policy.{
  evaluate_attachment_metadata, evaluate_attachment_content,
}
use enterprise_communication.Attachments.Accepted.{
  IsAccepted, evaluate_attachment_content-IsAccepted, evaluate_attachment_metadata-content,
}
use enterprise_communication.Attachments.Hostile.{evaluate_attachment_content-hostile}
use enterprise_communication.Attachments.Budget.{
  pos, negsuc, AttachmentContentBudget, request_all, Accounts, request_all-Accounts,
}

abbrev hello : Bytes
hello = text "hello"

instream_frames-IsFraming_example :
    (frames : List Bytes) × (instream_frames 5 hello ≡ framed (frames ++ pack 0 ∷ []))
    × IsFraming hello frames
instream_frames-IsFraming_example = instream_frames-IsFraming 5 hello (omega arith)

reply_clean : map_clamd_response (text "stream: OK" ++ 0 ∷ []) ≡ clean
unfolding map_clamd_response strip strip_of first_line
reply_clean = refl

recv_bounded-IsReceived_example :
    (result : Bytes) × (recv_bounded 8 (text "stream" ∷ text ": OK" ∷ []) ≡ some result)
    × IsReceived 8 (joined (text "stream" ∷ text ": OK" ∷ [])) result
recv_bounded-IsReceived_example = recv_bounded-IsReceived 8 (text "stream" ∷ text ": OK" ∷ [])

abbrev member_info : ZipInfo
member_info = record {
  filename = text "xl/workbook.xml";
  orig_filename = text "xl/workbook.xml";
  flag_bits = 0;
  compress_type = 8;
  file_size = 900;
  compress_size = 100;
}

abbrev inventory : Inventory
inventory = record { names = text "xl/workbook.xml" ∷ []; total_uncompressed = 900 }

listed : zip_member_inventory xlsx_limits (some (member_info ∷ [])) ≡ ok (inventory, 1)
unfolding zip_member_inventory
listed = refl

zip_member_inventory-IsBoundedArchive_example :
    IsBoundedArchive xlsx_limits (member_info ∷ [])
    × (inventory.total_uncompressed ≡ total_size (member_info ∷ []))
    × (1 ≡ length (member_info ∷ []))
zip_member_inventory-IsBoundedArchive_example =
    zip_member_inventory-IsBoundedArchive xlsx_limits (member_info ∷ []) inventory 1 listed

abbrev library : Platform
library = record {
  infolist = λ payload. some (member_info ∷ []);
  attributes = λ payload name. some [];
  decode_utf_8 = λ payload. some payload;
  decode_utf_8_sig = λ payload. some (drop 3 payload);
  decode_utf_16 = λ payload. none;
  lower = λ t. t;
}

abbrev note : AttachmentContent
note = record {
  metadata = record { filename = text "a.txt"; media_type = text "text/plain"; reported_size = 5 };
  content = hello;
}

note_accepted : evaluate_attachment_content library note ≡ ok txt
unfolding evaluate_attachment_content strip
note_accepted = refl

evaluate_attachment_content-IsAccepted_example : IsAccepted library note txt
evaluate_attachment_content-IsAccepted_example =
    evaluate_attachment_content-IsAccepted library note txt note_accepted

evaluate_attachment_metadata-content_example :
    evaluate_attachment_metadata library note.metadata ≡ ok txt
evaluate_attachment_metadata-content_example =
    evaluate_attachment_metadata-content library note txt note_accepted

abbrev program : AttachmentContent
program = record note { content = 77 ∷ 90 ∷ 144 ∷ [] }

program_hostile : has_hostile_binary_signature program.content ≡ true
unfolding has_hostile_binary_signature
program_hostile = refl

evaluate_attachment_content-hostile_example :
    ¬ (evaluate_attachment_content library program ≡ ok txt)
evaluate_attachment_content-hostile_example =
    evaluate_attachment_content-hostile library program txt program_hostile

abbrev budget : AttachmentContentBudget
budget = record { limit_bytes = 10; consumed_bytes = 0 }

request_all-Accounts_example :
    let (final, granted) = request_all (pos 6 ∷ negsuc 2 ∷ pos 5 ∷ pos 4 ∷ []) budget in
    Accounts budget final granted
request_all-Accounts_example =
    request_all-Accounts (pos 6 ∷ negsuc 2 ∷ pos 5 ∷ pos 4 ∷ []) budget (omega arith)
