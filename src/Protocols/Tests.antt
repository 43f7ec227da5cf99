-- ===== src/Protocols/Tests.antt =====
-- Two lists of protocols.
use openssl_3_0_bee2evp.Prelude.{◌≡◌, refl, some, List, [], ◌∷◌}
use openssl_3_0_bee2evp.Protocols.{
  negotiated, same_bytes, supports, found, select_from, select_next_proto,
}
use openssl_3_0_bee2evp.Protocols.Select.{
  Name, encode, first_common, choice, map_chosen, select_next_proto_lem,
}

-- "h2", "h3" and "x"
abbrev h2 : Name
h2 = 104 ∷ 50 ∷ []

abbrev h3 : Name
h3 = 104 ∷ 51 ∷ []

abbrev x : Name
x = 120 ∷ []

abbrev server_names : List Name
server_names = h3 ∷ h2 ∷ x ∷ []

abbrev client_names : List Name
client_names = x ∷ h2 ∷ []

select_next_proto-names :
    map_chosen (select_next_proto (encode server_names) (encode client_names))
    ≡ some (negotiated, h2)
unfolding select_next_proto select_from supports same_bytes found
select_next_proto-names = refl

select_next_proto_lem_example :
    map_chosen (select_next_proto (encode server_names) (encode client_names))
    ≡ choice (first_common server_names client_names) client_names
select_next_proto_lem_example = select_next_proto_lem server_names client_names
