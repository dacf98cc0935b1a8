-- ===== src/ApiClient/Granted.antt =====
-- What a successful refresh does for the requests that wait for it, and for later ones.
