-- ===== src/Tests/Hubspot.antt =====
-- A HubSpot mutation, with and without a credential among its arguments.
use brunova_knowledge_gatewa.Prelude.{Option, some, ℕ}
use brunova_knowledge_gatewa.Json.{Json, Fields, array, object, text, cons, nil, field, end}

abbrev nested : Json
nested =
    object (field "rows" (array (cons (object (field "client_secret" (text "s") end)) nil)) end)

abbrev arguments : Fields
arguments = field "name" (text "Eva") end

abbrev size_of : Fields → Option ℕ
size_of fields = some 14
