-- ===== src/Error/Message.antt =====
-- What `set_last_error` makes of a message (src/error.rs).
use imbh_c.Common.{Text, true, false, ◌≡◌, ◌∙◌, ap, sym, ◌↔◌}
use imbh_c.Common.Utf8.{has_nul, is_utf8, has_nul-replace_nul, replace_nul-id, is_utf8-replace_nul}
use imbh_c.Error.{stored_message}
use imbh_c.Error.Laws.{stored_message-eq-replace_nul}

-- The stored bytes of a UTF-8 message are UTF-8 and hold no NUL, so that a C string carries them
-- whole; they are the message itself exactly when the message holds no NUL.
pub stored_message-IsCString :
    (msg : Text)
    → is_utf8 msg ≡ true
    → (is_utf8 (stored_message msg) ≡ true)
      × (has_nul (stored_message msg) ≡ false)
      × ((stored_message msg ≡ msg) ↔ (has_nul msg ≡ false))
stored_message-IsCString msg u =
    let e = stored_message-eq-replace_nul msg in
    (
      ap is_utf8 e ∙ is_utf8-replace_nul msg u,
      ap has_nul e ∙ has_nul-replace_nul msg,
      (
        λ h. sym (ap has_nul h) ∙ (ap has_nul e ∙ has_nul-replace_nul msg),
        λ h. e ∙ replace_nul-id msg h,
      ),
    )
