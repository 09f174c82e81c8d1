-- ===== src/Network/Tests.antt =====
-- Both Gateways in one namespace.
