-- ===== src/Client/Options.antt =====
-- client.go: ClientOptions, the known clients for a form.
use middle.Prelude.{◌↔◌, length, ◌≡◌, In}
use middle.Text.{Text}
use middle.Text.SortBy.{sort_by, Ascending, sort_by-Ascending, length-sort_by, In-sort_by}
use middle.Client.{Table, Clients}

abbrev pub code_of : Text × Text → Text
code_of (code, name) = code

unfoldable pub client_options : Clients → Table
client_options st = sort_by code_of st.names

-- The options are exactly the clients that have a name, each as often as in the table, in the order
-- of their codes.
pub client_options-Ascending :
    (st : Clients) (option : Text × Text)
    → Ascending code_of (client_options st)
      × (length (client_options st) ≡ length st.names)
      × (In option (client_options st) ↔ In option st.names)
unfolding client_options
client_options-Ascending st option = (
  sort_by-Ascending code_of st.names,
  length-sort_by code_of st.names,
  In-sort_by code_of option st.names,
)
