-- ===== src/Serving.antt =====
-- `start` and `stop` of the two servers that stand on socketserver: bacnet/server.py and
-- enip/server.py.
pub mod Life
pub mod Ending
