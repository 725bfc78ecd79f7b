-- ===== src/Installers/Tests.antt =====
-- Runs of the administration of installers.
use dimax_ops_backend.Base.{ℕ, ◌≡◌, refl, true, Option, none, some, [], ◌∷◌}
use dimax_ops_backend.Store.{find, assign, flush, objects, violates}
use dimax_ops_backend.Domain.{Installer, User, UserRole, http_error}
use dimax_ops_backend.Uow.{Uow, ok, err, flush_session, flushed, violates_unique}
use dimax_ops_backend.Sample
use dimax_ops_backend.Sample.{row}
use dimax_ops_backend.Installers.{
  link_user, link_row, get_user_for_link, delete_installer, soft_deleted,
}

abbrev installer : (id : ℕ) → (user_id : Option ℕ) → Installer
installer id user_id = record {
  id = id;
  company_id = 1;
  full_name = "A B";
  phone = none;
  email = none;
  address = none;
  passport_id = none;
  notes = none;
  status = "ACTIVE";
  is_active = true;
  user_id = user_id;
  deleted_at = none;
}

abbrev user : User
user = record {
  id = 90;
  company_id = 1;
  email = "a@b.c";
  role = UserRole.installer;
  password_hash = "";
  is_active = true;
}

abbrev uow : Uow
uow = record Sample.uow {
  installers = row (installer 7 none) ∷ row (installer 8 (some 90)) ∷ [];
  users = row user ∷ [];
}

-- The user 90 is linked to the installer 8.
linked_elsewhere :
    (link_user 60 1 2 7 90 uow).0
    ≡ err (http_error 409 "user is already linked to another installer")
unfolding link_user link_row get_user_for_link find
linked_elsewhere = refl

-- It can be linked to the installer 7 once the installer 8 was deleted, and that flushed.
linked_later :
    (link_user 61 1 2 7 90 (flushed (delete_installer 60 1 2 8 uow).1)).0
    ≡ ok (installer 7 (some 90))
unfolding link_user link_row get_user_for_link find delete_installer soft_deleted assign flush
    flush_session flushed violates_unique violates objects
linked_later = refl
