-- ===== src/Projects/Import/Aliases.antt =====
-- The words that name the columns and the locations of an imported file: the second, multilingual
-- definitions of app/modules/projects/application/file_import_service.py, which override the first.
use dimax_ops_backend.Base.{List, [], ◌∷◌, String}

abbrev pub house_words : List String
house_words =
    "\u{5d1}\u{5e0}\u{5d9}\u{5d9}\u{5df}" ∷ "house" ∷ "building" ∷ "house_number" ∷ "house_no"
    ∷ "building_no" ∷ "дом" ∷ "номер дома" ∷ "корпус" ∷ "здание" ∷ "\u{5d1}\u{5d9}\u{5ea}"
    ∷ "\u{5de}\u{5e1}\u{5e4}\u{5e8} \u{5d1}\u{5d9}\u{5ea}" ∷ "\u{5d1}\u{5e0}\u{5d9}\u{5d9}\u{5df}"
    ∷ []

abbrev pub floor_words : List String
floor_words =
    "\u{5e7}\u{5d5}\u{5de}\u{5d4}" ∷ "floor" ∷ "floor_label" ∷ "level" ∷ "этаж" ∷ "уровень"
    ∷ "\u{5e7}\u{5d5}\u{5de}\u{5d4}" ∷ "\u{5de}\u{5e4}\u{5dc}\u{5e1}" ∷ []

abbrev pub apartment_words : List String
apartment_words =
    "\u{5d3}\u{5d9}\u{5e8}\u{5d4}" ∷ "apartment" ∷ "apartment_number" ∷ "apt" ∷ "unit" ∷ "flat"
    ∷ "квартира" ∷ "номер квартиры" ∷ "юнит" ∷ "\u{5d3}\u{5d9}\u{5e8}\u{5d4}"
    ∷ "\u{5de}\u{5e1}\u{5e4}\u{5e8} \u{5d3}\u{5d9}\u{5e8}\u{5d4}"
    ∷ "\u{5d9}\u{5d7}\u{5d9}\u{5d3}\u{5d4}" ∷ []

abbrev pub location_words : List String
location_words =
    "location" ∷ "location_code" ∷ "zone" ∷ "zone_type" ∷ "area" ∷ "placement" ∷ "локация" ∷ "зона"
    ∷ "тип помещения" ∷ "назначение" ∷ "\u{5de}\u{5d9}\u{5e7}\u{5d5}\u{5dd}"
    ∷ "\u{5d0}\u{5d6}\u{5d5}\u{5e8}" ∷ "\u{5e1}\u{5d5}\u{5d2} \u{5de}\u{5d9}\u{5e7}\u{5d5}\u{5dd}"
    ∷ []

abbrev pub marking_words : List String
marking_words =
    "\u{5d3}\u{5d2}\u{5dd} \u{5db}\u{5e0}\u{5e3}" ∷ "\u{5d3}\u{5d2}\u{5dd}-\u{5db}\u{5e0}\u{5e3}"
    ∷ "marking" ∷ "door_marking" ∷ "mark" ∷ "label" ∷ "designation" ∷ "маркировка" ∷ "метка"
    ∷ "обозначение" ∷ "\u{5e1}\u{5d9}\u{5de}\u{5d5}\u{5df}" ∷ "\u{5ea}\u{5d5}\u{5d9}\u{5ea}" ∷ []

abbrev pub door_type_code_words : List String
door_type_code_words =
    "door_type" ∷ "door_type_code" ∷ "type_code" ∷ "model" ∷ "тип двери" ∷ "код типа"
    ∷ "\u{5de}\u{5d5}\u{5d3}\u{5dc}" ∷ "\u{5e1}\u{5d5}\u{5d2} \u{5d3}\u{5dc}\u{5ea}" ∷ []

abbrev pub door_type_id_words : List String
door_type_id_words = "door_type_id" ∷ []

abbrev pub qty_words : List String
qty_words =
    "qty" ∷ "quantity" ∷ "count" ∷ "amount" ∷ "количество" ∷ "\u{5db}\u{5de}\u{5d5}\u{5ea}" ∷ []

abbrev pub price_words : List String
price_words =
    "price" ∷ "our_price" ∷ "cost" ∷ "цена" ∷ "стоимость" ∷ "\u{5de}\u{5d7}\u{5d9}\u{5e8}" ∷ []

abbrev pub unit_label_words : List String
unit_label_words =
    "unit_label" ∷ "position_label" ∷ "позиция" ∷ "метка позиции" ∷ "позиция двери"
    ∷ "\u{5de}\u{5d6}\u{5d4}\u{5d4}" ∷ "\u{5de}\u{5d6}\u{5d4}\u{5d4} \u{5d3}\u{5dc}\u{5ea}" ∷ []

abbrev pub order_number_words : List String
order_number_words =
    "\u{5de}\u{5e1}\u{5e4}\u{5e8} \u{5d4}\u{5d6}\u{5de}\u{5e0}\u{5d4}"
    ∷ "\u{5de}\u{5e1}\u{5e4}\u{5e8}-\u{5d4}\u{5d6}\u{5de}\u{5e0}\u{5d4}" ∷ "order_number"
    ∷ "order_no" ∷ "order_id" ∷ "po_number" ∷ "purchase_order" ∷ []

-- The keys of `LOCATION_ALIAS_MAP` before `_normalize_token`, with their codes.
abbrev pub location_alias_words : List (String × String)
location_alias_words =
    ("dira", "dira")
    ∷ ("apartment", "dira")
    ∷ ("flat", "dira")
    ∷ ("unit", "dira")
    ∷ ("дира", "dira")
    ∷ ("квартира", "dira")
    ∷ ("\u{5d3}\u{5d9}\u{5e8}\u{5d4}", "dira")
    ∷ ("mamad", "mamad")
    ∷ ("safe room", "mamad")
    ∷ ("мамад", "mamad")
    ∷ ("\u{5de}\u{5de}\u{5d3}", "mamad")
    ∷ ("madregot", "madregot")
    ∷ ("stairs", "madregot")
    ∷ ("staircase", "madregot")
    ∷ ("лестница", "madregot")
    ∷ ("лестничная", "madregot")
    ∷ ("\u{5de}\u{5d3}\u{5e8}\u{5d2}\u{5d5}\u{5ea}", "madregot")
    ∷ ("mahzan", "mahzan")
    ∷ ("machsan", "mahzan")
    ∷ ("mahsan", "mahzan")
    ∷ ("storage", "mahzan")
    ∷ ("кладовка", "mahzan")
    ∷ ("склад", "mahzan")
    ∷ ("махсан", "mahzan")
    ∷ ("\u{5de}\u{5d7}\u{5e1}\u{5df}", "mahzan")
    ∷ ("heder ashpa", "heder_ashpa")
    ∷ ("trash room", "heder_ashpa")
    ∷ ("garbage", "heder_ashpa")
    ∷ ("мусорка", "heder_ashpa")
    ∷ ("хедер ашпа", "heder_ashpa")
    ∷ ("\u{5d7}\u{5d3}\u{5e8} \u{5d0}\u{5e9}\u{5e4}\u{5d4}", "heder_ashpa")
    ∷ ("lobby maalit", "lobby_maalit")
    ∷ ("elevator lobby", "lobby_maalit")
    ∷ ("лобби лифта", "lobby_maalit")
    ∷ ("\u{5dc}\u{5d5}\u{5d1}\u{5d9} \u{5de}\u{5e2}\u{5dc}\u{5d9}\u{5ea}", "lobby_maalit")
    ∷ []
