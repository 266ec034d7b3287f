-- ===== src/Http/Decimal.antt =====
-- The numbers of src/protocol/http.cpp, which `std::from_chars` reads, against their positional value.
