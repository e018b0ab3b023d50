-- ===== src/Catalog/Commands/Known.antt =====
-- The catalogue of the client inside the list of the core.
use Prim.Native.String.{String}
use electric_eel.Base.{◌≡◌, Bool, true, false, Option, any, All}
use electric_eel.Dashboard.Status.{Status}
use electric_eel.Catalog.Items.{pin_type, Arg, Command, Category}
use electric_eel.Catalog.Search.{categories, find_category}
use electric_eel.Catalog.Page.{visible_commands}
use electric_eel.Catalog.Page.Listed.{visible_commands-All}
use electric_eel.Catalog.Commands.{is_known_command, is_pin_command}

-- an argument whose field hides what is typed
abbrev pub is_pin : Arg → Bool
is_pin a = elim a.arg_type [ pin_type ↦ true | _ ↦ false ]

abbrev IsServed : Command → Type 0
IsServed c = (is_known_command c.id ≡ true) × (any is_pin c.args ≡ is_pin_command c.id)

categories-IsServed : All (λ (c : Category). All IsServed c.commands) categories
unfolding is_known_command is_pin_command
categories-IsServed = search

-- Every command that a page lists is one that the core accepts, and it has a field for a PIN if and
-- only if it is a command whose arguments the core keeps out of the log.
pub visible_commands-known :
    (status : Option Status) (id : String)
    → All
        (λ (c : Command).
          (is_known_command c.id ≡ true) × (any is_pin c.args ≡ is_pin_command c.id))
        (visible_commands status (find_category id))
visible_commands-known status id = visible_commands-All IsServed status id categories-IsServed
