-- ===== src/PasswordDb.antt =====
-- include/passwd_db.h and src/passwd_db.cpp: the credentials that the server accepts.
use restuarant_ordering_csf.Base.{Bool, false, ◌||◌, List, [], ◌∷◌, Text, codes, ◌==◌, text_eq}

-- The unordered set, as a list of its elements.
unfoldable pub passwd_db : List Text
passwd_db =
    codes "admin/password123"
    ∷ codes "testuser/testpass2026"
    ∷ codes "guest/guestaccess"
    ∷ codes "jdoe/qwerty789"
    ∷ codes "dev_account/devmode!"
    ∷ codes "staff_member/orange-juice-44"
    ∷ codes "student01/classroom!"
    ∷ codes "root/supersecret"
    ∷ codes "demo_user/demo-only-99"
    ∷ codes "app_tester/let-me-in-now"
    ∷ codes "alice/foobar"
    ∷ codes "bob/frotz"
    ∷ []

-- `find(cred) != end()`
unfoldable pub contains : Text → List Text → Bool
contains cred [] = false
contains cred (entry ∷ entries) = (entry == cred) || contains cred entries

unfoldable pub authenticate : Text → Bool
unfolding contains
authenticate cred = contains cred passwd_db
