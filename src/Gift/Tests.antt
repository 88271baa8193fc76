-- ===== src/Gift/Tests.antt =====
-- A gift of a guest at a concrete store.
use guestbook.Prelude.{◌≡◌, refl, pos, some, [], ◌∷◌, any, find_first, trim_space, true, List}
use guestbook.Action.{ok, err, invalid_input}
use guestbook.Samples.{quiet, sample_db}
use guestbook.Store.{is_active, EventGuest, GuestGift, find_event_guest, has_guest, log_with_user}
use guestbook.Gift.Repo.{find_gift, upsert_gift}
use guestbook.Gift.Service.{
  GuestGiftUpsertRequest, gift_type_of, notes_of, filled, new_gift, store_gift, upsert,
}
use guestbook.Gift.Book.{Same, write, entry_of, book_of}
use guestbook.Gift.Refine.{
  Request, recording, removing, serve_all, BookSteps, asked, serve_all-BookSteps,
}
use guestbook.Gift.Answer.{upsert-find_gift}

abbrev envelope : GuestGiftUpsertRequest
envelope = record { amount = some (pos 500); gift_type = " "; notes = "with love " }

abbrev envelope_of_ana : GuestGift
envelope_of_ana = filled 21 9 envelope (new_gift quiet 7 1 11 21)

abbrev calls : List Request
calls =
    record { env = quiet; call = recording 7 1 11 9 envelope }
    ∷ record { env = quiet; call = removing 7 1 11 9 }
    ∷ []

ana_gives : (upsert quiet 7 1 11 9 envelope sample_db).0 ≡ ok envelope_of_ana
unfolding upsert store_gift upsert_gift log_with_user find_event_guest find_first has_guest any
    gift_type_of notes_of filled new_gift trim_space find_gift
ana_gives = refl

-- An amount of nothing is refused.
nothing_given :
    (upsert quiet 7 1 11 9 (record envelope { amount = some (pos 0) }) sample_db).0
    ≡ err invalid_input
unfolding upsert find_event_guest find_first has_guest any gift_type_of trim_space
nothing_given = refl

upsert-find_gift_example :
    (eg : EventGuest) × (find_event_guest 7 1 11 sample_db ≡ some eg)
    × (is_active eg.status ≡ true)
    × (find_gift 7 1 11 (upsert quiet 7 1 11 9 envelope sample_db).1 ≡ some envelope_of_ana)
    × (entry_of envelope_of_ana ≡ asked eg.id 9 envelope)
    × Same
        (write 7 1 11 (some (entry_of envelope_of_ana)) (book_of sample_db))
        (book_of (upsert quiet 7 1 11 9 envelope sample_db).1)
upsert-find_gift_example =
    upsert-find_gift quiet 7 1 11 9 envelope envelope_of_ana sample_db ana_gives

serve_all-BookSteps_example :
    BookSteps calls (book_of sample_db) (book_of (serve_all calls sample_db))
serve_all-BookSteps_example = serve_all-BookSteps calls sample_db
