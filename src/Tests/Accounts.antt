-- ===== src/Tests/Accounts.antt =====
-- The accounts of the panel and the linked chat accounts at concrete inputs.
use mirocraft.Prelude.{
  ◌≡◌, refl, inl, inr, All, ◌===◌, true, false, [], ◌∷◌, none, some, codes, decimal,
}
use mirocraft.Api.Types.{User, admin}
use mirocraft.Api.Http.{network}
use mirocraft.Api.Accounts.{discord}
use mirocraft.Pages.Admin.{
  Admin, press, reset_password, change_blocked, Event, pressed, handle, empty_form, format_limits,
}
use mirocraft.Pages.Admin.Laws.{Spares, offered-Spares, Contradicts, press-Contradicts, refused}
use mirocraft.Pages.Admin
use mirocraft.Pages.Admin.View.{view, row_view}
use mirocraft.Pages.Admin.Running.{Setting}
use mirocraft.Pages.Run.{Running}
use mirocraft.Pages.Ui.{Offers, when, each, when_error, notice_view}
use mirocraft.Pages.LinkedAccounts.{LinkedAccounts, Issued, tick, format_remaining}
use mirocraft.Pages.LinkedAccounts.Countdown.{Counts, tick-Counts}

abbrev root : User
root = record {
  id = codes "u1";
  email = codes "root";
  role = admin;
  theme = [];
  blocked = false;
  max_servers = 2;
  max_ram_mb = 4096;
  max_disk_mb = 0;
  created_at = [];
}

limits : format_limits root ≡ codes "2 серв. · 4096 МБ"
unfolding format_limits codes decimal
limits = refl

abbrev page : Admin
page = record {
  users = root ∷ [];
  loading = false;
  error = none;
  notice = none;
  busy = none;
  form = empty_form;
}

abbrev guest : User
guest = record root { id = codes "u2"; email = codes "guest" }

abbrev two_users : Admin
two_users = record page {
  users = guest ∷ root ∷ [];
  form = record empty_form { email = codes "new"; password = codes "s3cret-s3cret" };
}

abbrev setting : Setting
setting = record { format_date = λ date. date; number = λ text. 0; me = codes "u1" }

abbrev block_guest : Event
block_guest = pressed change_blocked guest none false

-- The row of the guest is the first, and its third button the one that blocks.
block_offered : Offers block_guest (view setting.format_date setting.number setting.me two_users)
unfolding view row_view Offers when each notice_view when_error codes ◌===◌
block_offered = inr (
    inr (
      inr (
        inr (
          inr (
            inr (
              inr (
                inr (
                  inl (
                    inl (
                      inr (
                        inr (
                          inr (
                            inr (
                              inr (
                                inr (
                                  inr (
                                    inr (
                                      inl (
                                        refl,
                                        record { typed = none; sure = false },
                                        refl,
                                      )))))))))))))))))))

offered-Spares_example : All (Spares (codes "u1")) (handle block_guest two_users).1
offered-Spares_example = (offered-Spares setting two_users).0 block_guest block_offered

press-Contradicts_example :
    Contradicts root network
      (refused network (press reset_password root (some (codes "hunter2")) true page))
unfolding codes
press-Contradicts_example = press-Contradicts root (codes "hunter2") true page network refl

abbrev code : Issued
code = record { provider = discord; code = codes "1234"; expires_at = 600000 }

abbrev section : LinkedAccounts
section = record { links = []; error = none; busy = none; issued = some code; remaining = 0 }

tick-Counts_example : Counts 1000 (tick 1000 section) code
unfolding tick
tick-Counts_example = tick-Counts 1000 section code refl

remaining_minutes : format_remaining 599 ≡ codes "9:59"
unfolding format_remaining codes decimal
remaining_minutes = refl
