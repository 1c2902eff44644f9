-- ===== src/Scheduled/Clients.antt =====
-- The name to which the front ends reply is the name from which a request is accepted.
use detsys_testkit.Base.{ℕ, ◌<◌, ◌≡◌, refl, ◌∙◌, [], ◌∷◌, arith, ok, text_eq}
use detsys_testkit.Base.Text.{text, split, split_of_Lacks, split-append}
use detsys_testkit.Base.Decimal.{uint64_mod, decimal, parse_uint-decimal, decimal-Lacks}
use detsys_testkit.Register.Messages.{client_name}
use detsys_testkit.Scheduled.{parse_client_id}

split-client_name : (id : ℕ) → split b':' (client_name id) ≡ text "client" ∷ decimal id ∷ []
unfolding client_name
split-client_name id =
    split-append b':' (text "client") (decimal id) (omega arith)
    ∙ rw (split_of_Lacks b':' (decimal id) (decimal-Lacks b':' id (omega arith))) refl

-- Every uint64 client id survives being printed as a receiver and parsed as a sender.
pub parse_client_id-client_name :
    (id : ℕ) → id < uint64_mod → parse_client_id (client_name id) ≡ ok id
unfolding parse_client_id
parse_client_id-client_name id h =
    rw (split-client_name id, parse_client_id) (rw (parse_uint-decimal id h) refl)
